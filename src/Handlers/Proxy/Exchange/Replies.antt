-- ===== src/Handlers/Proxy/Exchange/Replies.antt =====
-- What `SendRequestToServer` makes of a well-formed reply.
use caviar_hacker_grid.Base.{
  ℕ, ◌+◌, ◌^◌, ◌<◌, ◌≤◌, true, List, [], ◌∷◌, ◌++◌, some, ◌≡◌, refl, sym, ap, ◌∙◌, arith, length,
  length-append, All, append_assoc,
}
use caviar_hacker_grid.Base.Text.{Bytes, None, None-append, codes, find}
use caviar_hacker_grid.Handlers.Proxy.Exchange.{
  Reply, Answer, read_rest, read_reply, read_word, read_unsigned, skip_status_message,
}
use caviar_hacker_grid.Handlers.Proxy.Exchange.Headers.{IsReplyHeader, followed, read_rest_lem}
use caviar_hacker_grid.Handlers.Proxy.Sockets.{buf_size, joined, read_until}
use caviar_hacker_grid.Handlers.Proxy.Sockets.Reading.{HasByte}
use caviar_hacker_grid.Handlers.Proxy.Sockets.Separators.{read_until_lem}
use caviar_hacker_grid.Handlers.Proxy.Stream.{Stream}
use caviar_hacker_grid.Handlers.Proxy.Stream.Reading.{
  stream, read_word_lem, read_unsigned_lem, skip_status_message_lem, to_decimal-Digits, Digits,
}
use caviar_hacker_grid.Http.Decimal.{to_decimal}
use caviar_hacker_grid.Http.Request.{crlf}
use caviar_hacker_grid.Http.Request.Lines.{is_cr, find-crlf}
use caviar_hacker_grid.Http.Response.{Response, set_status_number, header_lines}

-- The status line of another server.
abbrev pub server_line : ℕ → Bytes → Bytes
server_line code phrase =
    codes "HTTP/1.1" ++ (codes " " ++ (to_decimal code ++ (codes " " ++ (phrase ++ crlf))))

-- The status line without its end.
abbrev first_line : ℕ → Bytes → Bytes
first_line code phrase = codes "HTTP/1.1 " ++ (to_decimal code ++ (codes " " ++ phrase))

Digits-None-is_cr : (ds : Bytes) → Digits ds → None is_cr ds
Digits-None-is_cr [] h = tt
Digits-None-is_cr (d ∷ ds) (p, h) = (ground arith, Digits-None-is_cr ds h)

first_line-None-is_cr :
    (code : ℕ) (phrase : Bytes) → None is_cr phrase → None is_cr (first_line code phrase)
first_line-None-is_cr code phrase n =
    None-append is_cr (codes "HTTP/1.1 ") (to_decimal code ++ (codes " " ++ phrase))
      (refl, (refl, (refl, (refl, (refl, (refl, (refl, (refl, (refl, tt)))))))))
      (None-append is_cr (to_decimal code) (codes " " ++ phrase)
        (Digits-None-is_cr (to_decimal code) (to_decimal-Digits code)) (refl, n))

server_line-first_line :
    (code : ℕ) (phrase : Bytes) → server_line code phrase ≡ first_line code phrase ++ crlf
server_line-first_line code phrase = simp append_assoc

-- The version and the status code.
server_line_read :
    (code : ℕ) (phrase s : Bytes)
    → code < 2 ^ 32
    → read_unsigned (read_word (stream (server_line code phrase ++ s)))
      ≡ some (code, stream (b' ' ∷ (phrase ++ b'\r' ∷ b'\n' ∷ s)))
server_line_read code phrase s small =
    let tail = phrase ++ b'\r' ∷ b'\n' ∷ s in
    let rest = to_decimal code ++ b' ' ∷ tail in
    let text : server_line code phrase ++ s ≡ codes "HTTP/1.1" ++ b' ' ∷ rest = simp append_assoc in
    ap (λ t. read_unsigned (read_word (stream t))) text
    ∙ ap read_unsigned (read_word_lem rest)
    ∙ read_unsigned_lem code tail small

read_reply_steps :
    (redirect : Bytes → Response → Answer) (chunks left : List Bytes) (buffer : Bytes) (code : ℕ)
    (s : Stream) (r : Response)
    → read_until crlf [] chunks ≡ (buffer, left)
    → read_unsigned (read_word (stream buffer)) ≡ some (code, s)
    → read_reply redirect (record { chunks = chunks; ended = true }) r
      ≡ read_rest redirect (record { chunks = left; ended = true }) code (skip_status_message s) r
unfolding read_reply
read_reply_steps redirect chunks left buffer code s r e f =
    rw (read_reply, e, f)
      (ap
        (λ p.
          read_rest redirect (record { chunks = p.1; ended = true }) code (skip_status_message s) r)
        e)

-- A reply with a status code below 2 ^ 32, headers that each stand on one line, and a head of at most
-- 8192 bytes is read in the same way whatever the chunks it comes in: its headers are added, their
-- values without the blanks around them, up to the first location of a redirect, which is followed;
-- without one, all that stands behind the blank line is the body.
pub read_reply_lem :
    (redirect : Bytes → Response → Answer) (code : ℕ) (phrase : Bytes) (hs : List (Bytes × Bytes))
    (body : Bytes) (chunks : List Bytes) (r : Response)
    → code < 2 ^ 32
    → None is_cr phrase
    → All IsReplyHeader hs
    → length (server_line code phrase ++ (header_lines hs ++ crlf)) ≤ buf_size
    → All HasByte chunks
    → joined chunks ≡ server_line code phrase ++ (header_lines hs ++ (crlf ++ body))
    → read_reply redirect (record { chunks = chunks; ended = true }) r
      ≡ followed redirect code body hs (set_status_number code r)
read_reply_lem redirect code phrase hs body chunks r small n a l b e =
    let back = header_lines hs ++ (crlf ++ body) in
    let first = first_line code phrase in
    let none = first_line-None-is_cr code phrase n in
    let status = server_line-first_line code phrase in
    let text : server_line code phrase ++ back ≡ first ++ (crlf ++ back) =
      ap (λ s. s ++ back) status ∙ append_assoc first crlf back in
    let size : length (server_line code phrase) ≡ length first + 2 =
      ap length status ∙ length-append first crlf in
    let ends : (j : ℕ)
        → find crlf (server_line code phrase ++ back) ≡ some j
        → length (server_line code phrase) ≤ j + length crlf =
      λ j h.
        let f : some (length first) ≡ some j =
          sym (find-crlf first back none) ∙ ap (find crlf) (sym text) ∙ h in
        let same : length first ≡ j = cc in omega (arith, same, size) in
    let fits = length-append (server_line code phrase) (header_lines hs ++ crlf) in
    let (more, left, f, g, c) =
      read_until_lem b'\r' (b'\n' ∷ []) [] chunks (server_line code phrase) back e ends
        (omega (arith, l, fits)) b in
    let rest : Reply = record { chunks = left; ended = true } in
    read_reply_steps redirect chunks left (server_line code phrase ++ more) code _ r f
      (server_line_read code phrase more small)
    ∙ ap (λ s. read_rest redirect rest code s r) (skip_status_message_lem phrase more n)
    ∙ read_rest_lem redirect code hs body a (omega (arith, l, fits)) more left r g c
