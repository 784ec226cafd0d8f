-- ===== src/Server/Session.antt =====
-- server/server.cc, `Session::do_read`, and the dispatch to the handlers. The bytes of the buffer
-- are any that the read brings; each session handles one request.
pub mod Serving
pub mod Dispatch
pub mod Replies
pub mod Plain
pub mod Replying
use caviar_hacker_grid.Base.{
  ℕ, suc, Bool, true, false, List, [], ◌∷◌, Option, none, some, if◌then◌else◌, ◌==◌, length,
}
use caviar_hacker_grid.Base.Run.{Run, done, throws, undefined, diverges, or_undefined, ◌>>=◌}
use caviar_hacker_grid.Base.StdMap.{lookup}
use caviar_hacker_grid.Base.StdMap.Keys.{text_order}
use caviar_hacker_grid.Base.Text.{Bytes, codes, equal}
use caviar_hacker_grid.Handlers.{
  Status, bad_request, Handler, not_found_handler, echo_handler, blocking_handler, static_handler,
  markdown_handler, cloud_file_handler, proxy_handler, status_handler,
}
use caviar_hacker_grid.Handlers.Cloud.{Host, handle_cloud}
use caviar_hacker_grid.Handlers.Files.{FileSystem, handle_static, handle_markdown}
use caviar_hacker_grid.Handlers.Proxy.Exchange.{Network, handle_proxy}
use caviar_hacker_grid.Handlers.Simple.{not_found_response, echo, block}
use caviar_hacker_grid.Handlers.StatusPage.{handle_status}
use caviar_hacker_grid.Handlers.Table.{HandlerConfiguration, find_longest_handler_key}
use caviar_hacker_grid.Http.Request.{Request, Parsed, parsed, rejected, thrown, parse}
use caviar_hacker_grid.Http.Response.{Response, new_response, to_string}
use caviar_hacker_grid.Server.Status as ServerStatus
use caviar_hacker_grid.Server.Status.{log_incoming_request}

-- What the program calls and does not implement: the Markdown library, `std::system` and the network.
pub record Outside : Type 0 where
  pub render : Bytes → Bytes
  pub system : Bytes → FileSystem → ℕ × FileSystem
  pub network : Network

-- What the sessions share.
pub record Shared : Type 0 where
  pub status : ServerStatus.Status
  pub host : Host

-- A call that leaves the host as it is.
abbrev pub unchanged : Host → Run (Status × Response) → Run (Host × (Status × Response))
unchanged host answer = answer >>= λ a. done (host, a)

module _ (outside : Outside) where
  -- `HandleRequest`, by the class of the handler.
  unfoldable pub handle_request :
      Handler → Shared → Request → Response → Run (Host × (Status × Response))
  unfolding not_found_response echo handle_static handle_markdown handle_cloud handle_proxy
      handle_status
  handle_request not_found_handler w request r = done (w.host, not_found_response r)
  handle_request echo_handler w request r = done (w.host, echo request r)
  handle_request blocking_handler w request r = unchanged w.host (block request r)
  handle_request (static_handler uri_prefix root_path) w request r =
      unchanged w.host (handle_static w.host.files uri_prefix root_path request.request_uri r)
  handle_request (markdown_handler uri_prefix root_path) w request r =
      unchanged w.host
        (handle_markdown outside.render w.host.files uri_prefix root_path request.request_uri r)
  handle_request (cloud_file_handler uri_prefix bucket_name) w request r =
      handle_cloud outside.system uri_prefix bucket_name request.request_uri w.host r
  handle_request (proxy_handler uri_prefix host_path port_path) w request r = unchanged w.host (
      handle_proxy outside.network
        (record { uri_prefix = uri_prefix; host_path = host_path; port_path = port_path }) request
        r)
  handle_request (status_handler pointer) w request r =
      unchanged w.host (handle_status pointer w.status r)

-- `RequestStatus == RequestHandler::BAD_REQUEST`.
abbrev pub is_bad_request : Status → Bool
is_bad_request bad_request = true
is_bad_request _ = false

-- What a session does with the bytes that it has read: it writes a reply and closes, or it ends with
-- no reply, the connection left open.
pub data Served : Type 0 where
  replied : Bytes → Shared → Served
  silent : Shared → Served

abbrev pub internal_error : Bytes
internal_error = codes "HTTP/1.1 500 Internal Server Error\r\nContent-Type: text/html\r\n\r\n"

-- The handler for a key, and the default handler where the key is empty.
abbrev pub handler_for : HandlerConfiguration → Bytes → Option Handler
handler_for c [] = c.default_handler
handler_for c (k ∷ key) = lookup (k ∷ key) c.request_handlers

-- The reply to a request, and its entry in the counters.
unfoldable pub reply_with : Bytes → Shared → Host × (Status × Response) → Run Served
unfolding log_incoming_request to_string
reply_with uri w (host, (status, response)) = elim (is_bad_request status) [
  | true ↦ done (
      replied internal_error
        (record { status = log_incoming_request uri 500 w.status; host = host }))
  | false ↦ or_undefined (to_string response) >>= λ text.
      or_undefined response.status_code >>= λ code.
      done (replied text (record { status = log_incoming_request uri code w.status; host = host }))
]

-- `data_.length() == 0`; behind it the code reads the URI of a request that is null. Nothing ever
-- assigns `data_`.
abbrev pub refuse : Bytes → Shared → Run Served
refuse [] w = done (silent w)
refuse (_ ∷ _) w = undefined

-- `do_read`, with the `data_` of the session and the bytes of its buffer.
unfoldable pub do_read : Outside → HandlerConfiguration → Bytes → Bytes → Shared → Run Served
unfolding handle_request reply_with parse find_longest_handler_key lookup
do_read outside c data_ buffered_input w = elim (parse buffered_input) [
  | thrown ↦ throws
  | rejected ↦ refuse data_ w
  | parsed request ↦
      or_undefined (handler_for c (find_longest_handler_key request.request_uri c.request_handlers))
      >>= λ handler.
          handle_request outside handler w request new_response >>= reply_with request.request_uri w
]
