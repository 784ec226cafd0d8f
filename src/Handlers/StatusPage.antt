-- ===== src/Handlers/StatusPage.antt =====
-- handlers/status_handler.cc.
pub mod Items
use caviar_hacker_grid.Base.{ℕ, List, [], ◌∷◌, ◌++◌}
use caviar_hacker_grid.Base.Run.{Run, done, undefined}
use caviar_hacker_grid.Base.Text.{Bytes, codes}
use caviar_hacker_grid.Handlers.{
  Status, ok, misconfigured_handler, StatusPointer, wild, null_pointer, server_status,
}
use caviar_hacker_grid.Handlers.Simple.{add_content_type}
use caviar_hacker_grid.Http.Decimal.{to_decimal, int_decimal}
use caviar_hacker_grid.Http.Mime.{text_html}
use caviar_hacker_grid.Http.Response.{Response, set_status, set_body}
use caviar_hacker_grid.Http.Status.{ResponseCode}
use caviar_hacker_grid.Server.Status as ServerStatus

-- The three loops over the maps.
unfoldable pub url_items : List (Bytes × ℕ) → Bytes
unfolding to_decimal
url_items [] = []
url_items ((url, count) ∷ rest) =
    codes "<li>"
    ++ (url ++ (codes " : " ++ (to_decimal count ++ (codes "</li>\n" ++ url_items rest))))

unfoldable pub code_items : List (ℕ × ℕ) → Bytes
unfolding to_decimal int_decimal
code_items [] = []
code_items ((code, count) ∷ rest) =
    codes "<li>"
    ++ (int_decimal code
        ++ (codes " : " ++ (to_decimal count ++ (codes "</li>\n" ++ code_items rest))))

unfoldable pub handler_items : List (Bytes × Bytes) → Bytes
handler_items [] = []
handler_items ((path, handler) ∷ rest) =
    codes "<li> " ++ (path ++ (codes " : " ++ (handler ++ (codes "</li>\n" ++ handler_items rest))))

abbrev page_head : Bytes
page_head =
    codes
      "<!DOCTYPE HTML>\n<html>\n<head>Status Page</head><body bgcolor=\"FFFFFF\">\n<h1>Status Page</h1>\n<h2>Requests Received</h2>\n"

-- `StatusToHtml`.
unfoldable pub status_to_html : ServerStatus.Status → Bytes
unfolding url_items code_items handler_items to_decimal
status_to_html status =
    page_head
    ++ (codes "<p> Total Requests Received: "
        ++ (to_decimal status.requests
            ++ (codes "</p>"
                ++ (codes "<p> Requests broken down by URL:<ul>\n"
                    ++ (url_items status.request_count_by_url
                        ++ (codes "</ul></p>\n<p> Requests broken down by Response Code: <ul>\n"
                            ++ (code_items status.response_count_by_code
                                ++ (codes "</ul></p>\n<h2>Handlers</h2>\n<p><ul>\n"
                                    ++ (handler_items status.request_handlers
                                        ++ (codes "</ul></p>\n<p> Default handler: "
                                            ++ (status.default_handler
                                                ++ codes "</p></body>\n</html>\n")))))))))))

-- `HandleRequest`. A handler that `InitStatus` never saw compares a pointer with no value.
unfoldable pub handle_status :
    StatusPointer → ServerStatus.Status → Response → Run (Status × Response)
unfolding status_to_html add_content_type set_status set_body
handle_status wild status r = undefined
handle_status null_pointer status r = done (misconfigured_handler, r)
handle_status server_status status r = done (
  ok,
  set_body (status_to_html status) (add_content_type text_html (set_status ResponseCode.ok r)),
)
