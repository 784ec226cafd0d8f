-- ===== src/Handlers/Proxy/Exchange.antt =====
-- handlers/proxy_handler.cc, `SendRequestToServer` and `HandleRequest`. The network is a parameter:
-- the chunks in which the other server's answer to a request arrives.
pub mod Redirects
pub mod Headers
pub mod Replies
pub mod RoundTrip
pub mod Limit
use caviar_hacker_grid.Base.{
  ℕ, zero, suc, Bool, true, false, ◌&&◌, List, [], ◌∷◌, Option, none, some, if◌then◌else◌, ◌==◌,
  length,
}
use caviar_hacker_grid.Base.Run.{Run, done, undefined, diverges, ◌>>=◌}
use caviar_hacker_grid.Base.Text.{Bytes, codes, equal}
use caviar_hacker_grid.Handlers.{Status, ok, bad_request}
use caviar_hacker_grid.Handlers.Proxy.{Proxy, modify_request_for_proxy, parse_redirect_location}
use caviar_hacker_grid.Handlers.Proxy.Stream.{
  Stream, read_word, read_unsigned, skip_status_message, read_next_header, no_header, next_header,
}
use caviar_hacker_grid.Http.MutableRequest.{set_uri, set_header}
use caviar_hacker_grid.Http.MutableRequest
use caviar_hacker_grid.Handlers.Proxy.Sockets.{read_until, socket_read_to_eof}
use caviar_hacker_grid.Http.Request.{Request, crlf, crlf_crlf}
use caviar_hacker_grid.Http.Response.{Response, set_status, set_status_number, add_header, set_body}
use caviar_hacker_grid.Http.Status.{ResponseCode, not_found}

-- The chunks of a reply, and whether its end is that of the connection and no other error.
pub record Reply : Type 0 where
  pub chunks : List Bytes
  pub ended : Bool

-- Host, port and request to the reply; `none` is an exception, such as a host that is not found.
abbrev pub Network : Type 0
Network = Bytes → Bytes → Bytes → Option Reply

abbrev pub Answer : Type 0
Answer = Run (Status × Response)

-- Behind the headers: the body, unless reading it failed.
unfoldable pub finish : Reply → Stream → Response → Answer
unfolding socket_read_to_eof set_body
finish reply s r = socket_read_to_eof s.bytes reply.chunks >>= λ body.
    done (ok, (if reply.ended then set_body body r else r))

-- `status_code == 302` and `header_key == "Location"`.
abbrev pub is_redirect : ℕ → Bytes → Bool
is_redirect status_code key = status_code == 302 && equal key (codes "Location")

-- The loop over the headers of a reply, in at most the given number of rounds, with what has not been
-- read of it. `redirect` sends the request on to a location.
unfoldable pub read_headers :
    ℕ → (Bytes → Response → Answer) → Reply → ℕ → Stream → Response → Answer
unfolding read_next_header equal add_header finish
read_headers zero redirect reply status_code s r = diverges
read_headers (suc n) redirect reply status_code s r = elim (read_next_header s) [
  | no_header s' ↦ finish reply s' r
  | next_header key value s' ↦ elim (is_redirect status_code key) [
    | true ↦ redirect value r
    | false ↦ read_headers n redirect reply status_code s' (add_header key value r)
  ]
]

-- The reply behind its status line, with what is left of the stream. Every header line takes a byte of
-- the buffer at least.
unfoldable pub read_rest : (Bytes → Response → Answer) → Reply → ℕ → Stream → Response → Answer
unfolding read_until read_headers set_status_number
read_rest redirect reply status_code s r =
    let (buffer, chunks) = read_until crlf_crlf s.bytes reply.chunks in
    read_headers (suc (length buffer)) redirect (record reply { chunks = chunks }) status_code
      (record { good = s.good; bytes = buffer }) (set_status_number status_code r)

-- The reply, from its status line on.
unfoldable pub read_reply : (Bytes → Response → Answer) → Reply → Response → Answer
unfolding read_until read_rest read_word read_unsigned skip_status_message
read_reply redirect reply r =
    let (buffer, chunks) = read_until crlf [] reply.chunks in
    elim (read_unsigned (read_word (record { good = true; bytes = buffer }))) [
      | none ↦ undefined
      | some (status_code, s) ↦
          read_rest redirect (record reply { chunks = chunks }) status_code (skip_status_message s)
            r
    ]

-- The request for a redirect location.
unfoldable pub redirected : Bytes → Bytes → Request → Request
unfolding set_uri set_header
redirected new_path new_host request = set_header (codes "Host") new_host (set_uri new_path request)

module _ (network : Network) (p : Proxy) where
  -- `SendRequestToServer`; the last number is `depth`.
  unfoldable pub send_request_to_server : Bytes → Bytes → Request → Response → ℕ → Answer
  unfolding read_reply modify_request_for_proxy parse_redirect_location redirected
      MutableRequest.to_string
  send_request_to_server host port request r zero = done (ok, set_status not_found r)
  send_request_to_server host port request r (suc depth) =
      elim (network host port (MutableRequest.to_string (modify_request_for_proxy p request))) [
        | none ↦ done (bad_request, r)
        | some reply ↦
            read_reply
              (λ location r'.
                let (new_path, new_host) = parse_redirect_location location in
                send_request_to_server new_host p.port_path (redirected new_path new_host request)
                  r' depth)
              reply r
      ]

  -- `HandleRequest`.
  unfoldable pub handle_proxy : Request → Response → Answer
  unfolding send_request_to_server
  handle_proxy request r = send_request_to_server p.host_path p.port_path request r 10
