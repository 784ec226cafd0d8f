-- ===== src/Handlers/Proxy/Exchange/Limit.antt =====
-- The limit on redirects in `SendRequestToServer`.
use caviar_hacker_grid.Base.{
  ℕ, zero, suc, ◌≤◌, Bool, true, false, List, [], ◌∷◌, ◌++◌, some, ◌≡◌, refl, ap, ◌∙◌, arith,
  length, All,
}
use caviar_hacker_grid.Base.Run.{done}
use caviar_hacker_grid.Base.Text.{Bytes, None, codes, equal}
use caviar_hacker_grid.Base.StdMap.{StdMap, assign}
use caviar_hacker_grid.Base.StdMap.Keys.{text_order}
use caviar_hacker_grid.Handlers.{ok}
use caviar_hacker_grid.Handlers.Proxy.{
  Proxy, trim, modify_request_for_proxy, parse_redirect_location,
}
use caviar_hacker_grid.Handlers.Proxy.Exchange.{
  Reply, Network, Answer, read_reply, redirected, send_request_to_server, handle_proxy,
}
use caviar_hacker_grid.Handlers.Proxy.Exchange.Headers.{IsReplyHeader, followed}
use caviar_hacker_grid.Handlers.Proxy.Exchange.Replies.{read_reply_lem, server_line}
use caviar_hacker_grid.Handlers.Proxy.Sockets.{buf_size, joined}
use caviar_hacker_grid.Handlers.Proxy.Sockets.Reading.{HasByte}
use caviar_hacker_grid.Http.MutableRequest
use caviar_hacker_grid.Http.Request.{Request, crlf}
use caviar_hacker_grid.Http.Request.Lines.{is_cr}
use caviar_hacker_grid.Http.Response.{
  Response, add_header, header_lines, set_status, set_status_number,
}
use caviar_hacker_grid.Http.Status.{not_found}

-- The name of a header that is no location, and that a test allows.
abbrev pub IsAllowed : (Bytes → Bool) → Bytes × Bytes → Type 0
IsAllowed allowed (name, value) = (equal name (codes "Location") ≡ false) × (allowed name ≡ true)

-- A well-formed reply with the status code 302 and a `Location`, before which stand headers of allowed
-- names.
pub record IsRedirect (allowed : Bytes → Bool) (reply : Reply) : Type 0 where
  pub phrase : Bytes
  pub before : List (Bytes × Bytes)
  pub location : Bytes
  pub others : List (Bytes × Bytes)
  pub body : Bytes
  pub one_line : None is_cr phrase
  pub no_location : All (IsAllowed allowed) before
  pub headers : All IsReplyHeader (before ++ (codes "Location", location) ∷ others)
  pub fits :
      length (
        server_line 302 phrase
        ++ (header_lines (before ++ (codes "Location", location) ∷ others) ++ crlf))
      ≤ buf_size
  pub bytes : All HasByte reply.chunks
  pub text :
      joined reply.chunks
      ≡ server_line 302 phrase
        ++ (header_lines (before ++ (codes "Location", location) ∷ others) ++ (crlf ++ body))
  pub ended : reply.ended ≡ true

-- Headers to which others of allowed names have been added.
pub data Added (allowed : Bytes → Bool) (m : StdMap Bytes Bytes) : StdMap Bytes Bytes → Type 0 where
  nothing : Added allowed m m
  header :
      {n : StdMap Bytes Bytes} (name value : Bytes)
      → Added allowed m n
      → allowed name ≡ true
      → Added allowed m (assign name value n)

-- The headers before the location are added, and it is followed.
followed-redirect :
    (redirect : Bytes → Response → Answer) (allowed : Bytes → Bool)
    (before others : List (Bytes × Bytes)) (location body : Bytes) (r : Response)
    (m : StdMap Bytes Bytes)
    → All (IsAllowed allowed) before
    → Added allowed m r.http_headers
    → (n : StdMap Bytes Bytes) × (followed redirect 302 body
          (before ++ (codes "Location", location) ∷ others)
          r
        ≡ redirect (trim location) (record r { http_headers = n }))
      × Added allowed m n
unfolding equal add_header
followed-redirect redirect allowed [] others location body r m a h = (r.http_headers, refl, h)
followed-redirect redirect allowed ((name, value) ∷ before) others location body r m ((ne, may), a)
      h =
    let (n, e, k) =
      followed-redirect redirect allowed before others location body
        (record r { http_headers = assign name (trim value) r.http_headers }) m a
        (header name (trim value) h may) in
    (n, rw (followed, ne, add_header) e, k)

-- The location of the first redirect is followed.
read_reply-IsRedirect :
    (redirect : Bytes → Response → Answer) (allowed : Bytes → Bool) (reply : Reply) (r : Response)
    (m : StdMap Bytes Bytes) (h : IsRedirect allowed reply)
    → Added allowed m r.http_headers
    → (n : StdMap Bytes Bytes) × (read_reply redirect reply r
        ≡ redirect (trim h.location) (record (set_status_number 302 r) { http_headers = n }))
      × Added allowed m n
unfolding set_status_number
read_reply-IsRedirect redirect allowed reply r m h a =
    let (n, e, k) =
      followed-redirect redirect allowed h.before h.others h.location h.body
        (set_status_number 302 r) m h.no_location a in
    (
      n,
      ap (λ e. read_reply redirect (record { chunks = reply.chunks; ended = e }) r) h.ended
          ∙ read_reply_lem redirect 302 h.phrase
              (h.before ++ (codes "Location", h.location) ∷ h.others) h.body reply.chunks r
              (omega arith) h.one_line h.headers h.fits h.bytes h.text
          ∙ e,
      k,
    )

module _ (network : Network) (p : Proxy) (allowed : Bytes → Bool)
    (always : (host port text : Bytes)
      → (reply : Reply) × (network host port text ≡ some reply) × IsRedirect allowed reply) where
  send_request_to_server_redirects :
      (depth : ℕ) (host port : Bytes) (request : Request) (r : Response) (m : StdMap Bytes Bytes)
      → Added allowed m r.http_headers
      → (n : StdMap Bytes Bytes) × (send_request_to_server network p host port request r depth
          ≡ done (ok, set_status not_found (record r { http_headers = n })))
        × Added allowed m n
  unfolding send_request_to_server set_status set_status_number
  send_request_to_server_redirects zero host port request r m a = (r.http_headers, refl, a)
  send_request_to_server_redirects (suc depth) host port request r m a =
      let sent = MutableRequest.to_string (modify_request_for_proxy p request) in
      let (reply, e, h) = always host port sent in
      let (new_path, new_host) = parse_redirect_location (trim h.location) in
      let redirect : Bytes → Response → Answer = λ location r'.
        let (path, host') = parse_redirect_location location in
        send_request_to_server network p host' p.port_path (redirected path host' request) r'
          depth in
      let (n, f, k) = read_reply-IsRedirect redirect allowed reply r m h a in
      let (n', g, l) =
        send_request_to_server_redirects depth new_host p.port_path
          (redirected new_path new_host request)
          (record (set_status_number 302 r) { http_headers = n }) m k in
      (n', rw (send_request_to_server, e) (f ∙ g), l)

  -- If other servers answer every request by a well-formed 302 with a `Location`, before which stand headers
  -- of allowed names alone, then ProxyHandler gives up: the reply is 404 with no body of theirs, and no
  -- header of theirs but of the allowed names, so none at all where `Location` comes first.
  pub handle_proxy_redirects :
      (request : Request) (r : Response)
      → (n : StdMap Bytes Bytes) × (handle_proxy network p request r
          ≡ done (ok, set_status not_found (record r { http_headers = n })))
        × Added allowed r.http_headers n
  unfolding handle_proxy
  handle_proxy_redirects request r =
      send_request_to_server_redirects 10 p.host_path p.port_path request r r.http_headers nothing
