-- ===== src/Handlers.antt =====
-- handlers/: the handlers as one data type, with a constructor for each class that
-- REGISTER_REQUEST_HANDLER names, holding the fields of the class.
pub mod Simple
pub mod Files
pub mod StatusPage
pub mod Cloud
pub mod Init
pub mod Proxy
pub mod Table
mod Tests
use caviar_hacker_grid.Base.{List, [], ◌∷◌, Option, none, some, Bool, true, false, if◌then◌else◌}
use caviar_hacker_grid.Base.Text.{Bytes, codes, equal, c_str}

-- `RequestHandler::Status`.
pub data Status : Type 0 where
  ok file_not_found bad_request invalid_config misconfigured_handler : Status

-- `status_` of a StatusHandler: no value yet, null, or the server's status.
pub data StatusPointer : Type 0 where
  wild null_pointer server_status : StatusPointer

pub data Handler : Type 0 where
  not_found_handler echo_handler blocking_handler : Handler
  static_handler : (uri_prefix root_path : Bytes) → Handler
  markdown_handler : (uri_prefix root_path : Bytes) → Handler
  cloud_file_handler : (uri_prefix bucket_name : Bytes) → Handler
  proxy_handler : (uri_prefix host_path port_path : Bytes) → Handler
  status_handler : StatusPointer → Handler

-- `request_handler_builders`: each class under its name, made by `new`.
abbrev pub request_handler_builders : List (Bytes × Handler)
request_handler_builders =
    (codes "NotFoundHandler", not_found_handler)
    ∷ (codes "EchoHandler", echo_handler)
    ∷ (codes "BlockingHandler", blocking_handler)
    ∷ (codes "StaticHandler", static_handler [] [])
    ∷ (codes "MarkdownHandler", markdown_handler [] [])
    ∷ (codes "CloudFileHandler", cloud_file_handler [] [])
    ∷ (codes "ProxyHandler", proxy_handler [] [] [])
    ∷ (codes "StatusHandler", status_handler wild)
    ∷ []

-- The builder that is registered under a name.
unfoldable pub find_builder : Bytes → List (Bytes × Handler) → Option Handler
unfolding equal
find_builder name [] = none
find_builder name ((n, h) ∷ builders) = if equal name n then some h else find_builder name builders

-- `RequestHandler::CreateByName` of `name.c_str()`, which ends at a NUL; `none` is a null pointer.
unfoldable pub create_by_name : Bytes → Option Handler
unfolding find_builder c_str
create_by_name name = find_builder (c_str name) request_handler_builders
