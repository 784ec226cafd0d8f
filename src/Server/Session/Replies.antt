-- ===== src/Server/Session/Replies.antt =====
-- The bytes that `Session::do_read` writes for a request that a static handler serves.
use caviar_hacker_grid.Base.{
  ℕ, [], ◌++◌, some, ◌≡◌, ◌≢◌, ◌∙◌, refl, ap, inl, inr, Option-cases, append_assoc,
}
use caviar_hacker_grid.Base.Run.{done, ◌>>=◌}
use caviar_hacker_grid.Base.StdMap.{lookup}
use caviar_hacker_grid.Base.StdMap.Keys.{text_order}
use caviar_hacker_grid.Base.Text.{Bytes, codes, c_str}
use caviar_hacker_grid.Handlers.{static_handler, status_handler, server_status, ok}
use caviar_hacker_grid.Handlers.Cloud.{Host}
use caviar_hacker_grid.Handlers.Files.{
  extension_of, add_static_type, static_answer, handle_static, file_to_string,
}
use caviar_hacker_grid.Handlers.Files.Answers.{static_type, serve_file, add_static_type_lem}
use caviar_hacker_grid.Handlers.StatusPage.{handle_status, status_to_html}
use caviar_hacker_grid.Handlers.Table.{HandlerConfiguration, find_longest_handler_key}
use caviar_hacker_grid.Http.Mime.{
  ContentType, text_html, app_octet_stream, get_mime_type, content_type_as_string,
}
use caviar_hacker_grid.Handlers.Simple.{add_content_type}
use caviar_hacker_grid.Http.Request.{Request, parsed, parse}
use caviar_hacker_grid.Http.Response.{Response, new_response, set_status, set_body, to_string}
use caviar_hacker_grid.Http.Status.{ResponseCode}
use caviar_hacker_grid.Server.Session.{
  Outside, Shared, replied, handler_for, unchanged, handle_request, reply_with, do_read,
}
use caviar_hacker_grid.Server.Session.Dispatch.{handler_for-key}
use caviar_hacker_grid.Server.Status.{log_incoming_request}

-- A reply with one header.
abbrev pub ok_reply : Bytes → Bytes → Bytes
ok_reply type text =
    codes "HTTP/1.1 200 OK\r\nContent-Type: " ++ (type ++ (codes "\r\n\r\n" ++ text))

to_string-typed :
    (type : ContentType) (text : Bytes)
    → to_string (set_body text (add_content_type type (set_status ResponseCode.ok new_response)))
      ≡ some (ok_reply (content_type_as_string type) text)
unfolding to_string set_body add_content_type set_status
to_string-typed type text = simp append_assoc

to_string-static :
    (path text : Bytes)
    → to_string (set_body text (add_static_type path (set_status ResponseCode.ok new_response)))
      ≡ some (ok_reply (static_type path) text)
unfolding add_static_type static_type content_type_as_string
to_string-static path text = elim (Option-cases (extension_of path)) [
  | inl e ↦ rw (add_static_type, static_type, e) (to_string-typed app_octet_stream text)
  | inr (x, e) ↦ rw (add_static_type, static_type, e) (to_string-typed (get_mime_type x) text)
]

reply_with_ok :
    (uri : Bytes) (w : Shared) (host : Host) (r : Response) {text : Bytes} {code : ℕ}
    → to_string r ≡ some text
    → r.status_code ≡ some code
    → reply_with uri w (host, (ok, r))
      ≡ done
          (replied text (record { status = log_incoming_request uri code w.status; host = host }))
unfolding reply_with
reply_with_ok uri w host r t c = rw (reply_with, t, c) refl

-- A request that parses, whose longest prefix in the table belongs to a static handler, and whose URI
-- goes on behind the prefix with the name of a file under the handler's root path, is answered with the
-- status line of 200, the content type of the file's extension and the bytes of the file, and counts as
-- one more request for its URI and for the code 200.
pub do_read_static_file :
    (outside : Outside) (c : HandlerConfiguration) (input : Bytes) (w : Shared) (request : Request)
    (uri_prefix root_path rest text : Bytes)
    → parse input ≡ parsed request
    → request.request_uri ≡ uri_prefix ++ rest
    → find_longest_handler_key request.request_uri c.request_handlers ≡ uri_prefix
    → uri_prefix ≢ []
    → lookup uri_prefix c.request_handlers ≡ some (static_handler uri_prefix root_path)
    → w.host.files (c_str (root_path ++ rest)) ≡ some text
    → do_read outside c [] input w
      ≡ done (
          replied
            (ok_reply (static_type (root_path ++ rest)) text)
            (record w { status = log_incoming_request request.request_uri 200 w.status }))
unfolding do_read handle_request handle_static set_body set_status
do_read_static_file outside c input w request uri_prefix root_path rest text p u k ne l f =
    let found : handler_for c (find_longest_handler_key request.request_uri c.request_handlers)
        ≡ some (static_handler uri_prefix root_path) =
      ap (handler_for c) k ∙ handler_for-key c uri_prefix ne ∙ l in
    let path = root_path ++ rest in
    let uri = request.request_uri in
    let files = w.host.files in
    let response = static_answer files path new_response in
    let answered : handle_static files uri_prefix root_path uri new_response ≡ done (ok, response) =
      ap (λ v. handle_static files uri_prefix root_path v new_response) u
      ∙ serve_file files uri_prefix root_path (static_answer files) new_response rest text f in
    let read : file_to_string files path ≡ text = rw (file_to_string, f) refl in
    let typed = add_static_type path (set_status ResponseCode.ok new_response) in
    let printed : to_string response ≡ some (ok_reply (static_type path) text) =
      ap (λ t. to_string (set_body t typed)) read ∙ to_string-static path text in
    let coded : response.status_code ≡ some 200 =
      (add_static_type_lem path (set_status ResponseCode.ok new_response)).1 in
    rw (do_read, p, found)
      (ap (λ a. unchanged w.host a >>= reply_with uri w) answered
        ∙ reply_with_ok uri w w.host response printed coded)

-- A request that parses and whose handler is a status handler is answered with the status page of the
-- counters as they were, which has no line for the request itself yet.
pub do_read_status :
    (outside : Outside) (c : HandlerConfiguration) (input : Bytes) (w : Shared) (request : Request)
    → parse input ≡ parsed request
    → handler_for c (find_longest_handler_key request.request_uri c.request_handlers)
      ≡ some (status_handler server_status)
    → do_read outside c [] input w
      ≡ done (
          replied
            (ok_reply (codes "text/html") (status_to_html w.status))
            (record w { status = log_incoming_request request.request_uri 200 w.status }))
unfolding do_read handle_request handle_status set_body set_status add_content_type
    content_type_as_string
do_read_status outside c input w request p found =
    let uri = request.request_uri in
    let page = status_to_html w.status in
    let response =
      set_body page (add_content_type text_html (set_status ResponseCode.ok new_response)) in
    rw (do_read, p, found)
      (reply_with_ok uri w w.host response (to_string-typed text_html page) refl)
