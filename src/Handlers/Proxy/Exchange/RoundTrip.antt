-- ===== src/Handlers/Proxy/Exchange/RoundTrip.antt =====
-- What `SendRequestToServer` makes of the reply that this server writes.
use caviar_hacker_grid.Base.{
  ℕ, ltb, ◌^◌, ◌<◌, ◌≤◌, true, false, List, [], ◌∷◌, ◌++◌, some, ◌≡◌, ◌≢◌, refl, sym, ap, ◌∙◌,
  arith, length, All, append_assoc, append-nil, subst,
}
use caviar_hacker_grid.Base.Run.{done}
use caviar_hacker_grid.Base.StdMap.{StdMap, IsSorted}
use caviar_hacker_grid.Base.StdMap.Keys.{text_order}
use caviar_hacker_grid.Base.StdMap.Laws.{update_last}
use caviar_hacker_grid.Base.Text.{Bytes, None}
use caviar_hacker_grid.Handlers.{ok}
use caviar_hacker_grid.Handlers.Proxy.{trim}
use caviar_hacker_grid.Handlers.Proxy.Exchange.{Answer, is_redirect, read_reply}
use caviar_hacker_grid.Handlers.Proxy.Exchange.Headers.{IsReplyHeader, followed}
use caviar_hacker_grid.Handlers.Proxy.Exchange.Replies.{read_reply_lem, server_line}
use caviar_hacker_grid.Handlers.Proxy.Sockets.{buf_size, joined}
use caviar_hacker_grid.Handlers.Proxy.Sockets.Reading.{HasByte}
use caviar_hacker_grid.Http.Decimal.{int_decimal}
use caviar_hacker_grid.Http.Request.{crlf}
use caviar_hacker_grid.Http.Request.Lines.{is_cr}
use caviar_hacker_grid.Http.Response.{
  Response, new_response, add_header, set_body, set_status_number, header_lines, status_line,
  to_string,
}
use caviar_hacker_grid.Http.Status.{get_default}

-- A value with no blanks around it.
abbrev pub IsTrimmed : Bytes × Bytes → Type 0
IsTrimmed (name, value) = trim value ≡ value

-- The headers of a sorted map give the map back.
followed-IsSorted :
    (redirect : Bytes → Response → Answer) (code : ℕ) (body : Bytes) (r : Response)
    (m hs : StdMap Bytes Bytes)
    → code ≢ 302
    → IsSorted (m ++ hs)
    → All IsTrimmed hs
    → followed redirect code body hs (record r { http_headers = m })
      ≡ done (ok, record r { http_headers = m ++ hs; body = body })
unfolding add_header set_body
followed-IsSorted redirect code body r m [] c s a = rw append-nil refl
followed-IsSorted redirect code body r m ((name, value) ∷ hs) c s (p, a) =
    let m' = m ++ (name, value) ∷ [] in
    let placed = update_last (λ _. value) name value m hs s in
    let none : is_redirect code name ≡ false = ground arith in
    let rest =
      followed-IsSorted redirect code body r m' hs c
        (subst IsSorted (sym (append_assoc m ((name, value) ∷ []) hs)) s) a in
    rw (followed, none, p, add_header, placed)
      (rest
        ∙ ap (λ x. done (ok, record r { http_headers = x; body = body }))
            (append_assoc m ((name, value) ∷ []) hs))

to_string-parts :
    (r : Response) {code : ℕ} {text : Bytes}
    → r.status_code ≡ some code
    → to_string r ≡ some text
    → text ≡ status_line code r.reason_phrase ++ (header_lines r.http_headers ++ (crlf ++ r.body))
unfolding to_string
to_string-parts r {code} {text} e f =
    let g : to_string r
        ≡ some (
            status_line code r.reason_phrase ++ (header_lines r.http_headers ++ (crlf ++ r.body))) =
      rw (to_string, e) refl in
    cc

-- A status code that is no negative `int` is written as another server would.
status_line-server_line :
    (code : ℕ) (phrase : Bytes) → code < 2 ^ 31 → status_line code phrase ≡ server_line code phrase
unfolding status_line int_decimal
status_line-server_line code phrase h =
    let no_sign : ltb 2147483647 code ≡ false = ground (arith, h) in
    rw (status_line, int_decimal, no_sign) refl

-- A reply that `Response::ToString` writes, with a status code below 2 ^ 31 other than 302, a phrase
-- and headers that each stand on one line, values with no blanks around them, and a head of at most
-- 8192 bytes, is read back whatever the chunks it comes in: status code, headers and body are those that
-- were written, and the phrase is the default one of the code.
pub read_reply-to_string :
    (redirect : Bytes → Response → Answer) (r : Response) (code : ℕ) (chunks : List Bytes)
    → r.status_code ≡ some code
    → code < 2 ^ 31
    → code ≢ 302
    → None is_cr r.reason_phrase
    → All IsReplyHeader r.http_headers
    → All IsTrimmed r.http_headers
    → IsSorted r.http_headers
    → length (status_line code r.reason_phrase ++ (header_lines r.http_headers ++ crlf)) ≤ buf_size
    → All HasByte chunks
    → to_string r ≡ some (joined chunks)
    → read_reply redirect (record { chunks = chunks; ended = true }) new_response
      ≡ done (ok, record r { reason_phrase = get_default code })
unfolding set_status_number
read_reply-to_string redirect r code chunks status small other phrase headers trimmed sorted head
      bytes text =
    let line = status_line-server_line code r.reason_phrase small in
    read_reply_lem redirect code r.reason_phrase r.http_headers r.body chunks new_response
      (omega (arith, small)) phrase headers
      (subst (λ l. length (l ++ (header_lines r.http_headers ++ crlf)) ≤ buf_size) line head) bytes
      (to_string-parts r status text
        ∙ ap (λ l. l ++ (header_lines r.http_headers ++ (crlf ++ r.body))) line)
    ∙ followed-IsSorted redirect code r.body (set_status_number code new_response) [] r.http_headers
        other sorted trimmed
    ∙ rw status refl
