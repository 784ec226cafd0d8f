-- ===== src/Handlers/Simple.antt =====
-- handlers/echo_handler.cc, not_found_handler.cc and blocking_handler.cc.
use caviar_hacker_grid.Base.Run.{Run, diverges}
use caviar_hacker_grid.Base.Text.{codes, c_str}
use caviar_hacker_grid.Handlers.{Status, ok, file_not_found}
use caviar_hacker_grid.Http.Mime.{ContentType, text_plain, content_type_as_string}
use caviar_hacker_grid.Http.Request.{Request}
use caviar_hacker_grid.Http.Response.{Response, set_status, add_header, set_body}
use caviar_hacker_grid.Http.Status.{ResponseCode, not_found}

-- `AddHeader("Content-Type", ContentTypeAsString(type))`.
unfoldable pub add_content_type : ContentType → Response → Response
unfolding add_header content_type_as_string
add_content_type type = add_header (codes "Content-Type") (content_type_as_string type)

-- `NotFoundHandler::HandleRequest`.
unfoldable pub not_found_response : Response → Status × Response
unfolding add_content_type set_status
not_found_response r = (file_not_found, add_content_type text_plain (set_status not_found r))

-- `EchoHandler::HandleRequest`: the raw request, as far as a C string shows it.
unfoldable pub echo : Request → Response → Status × Response
unfolding add_content_type set_status set_body c_str
echo request r = (
  ok,
  set_body (c_str request.raw_request) (add_content_type text_plain (set_status ResponseCode.ok r)),
)

-- `BlockingHandler::HandleRequest`: `for(;;)`.
abbrev pub block : Request → Response → Run (Status × Response)
block request r = diverges
