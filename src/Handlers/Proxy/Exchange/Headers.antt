-- ===== src/Handlers/Proxy/Exchange/Headers.antt =====
-- What `SendRequestToServer` makes of the headers of a well-formed reply, and of its body.
use caviar_hacker_grid.Base.{
  ℕ, zero, suc, ◌+◌, ◌<◌, ◌≤◌, Bool, true, false, List, [], ◌∷◌, ◌++◌, some, ◌≡◌, refl, sym, ap,
  ◌∙◌, arith, ◌==◌, length, length-append, All, append_assoc, subst, Bool-cases, inl, inr,
}
use caviar_hacker_grid.Base.Run.{done}
use caviar_hacker_grid.Base.Text.{Bytes, None, None-append, None-weaken, codes, find}
use caviar_hacker_grid.Handlers.{ok}
use caviar_hacker_grid.Handlers.Proxy.{trim}
use caviar_hacker_grid.Handlers.Proxy.Exchange.{
  Reply, Answer, finish, is_redirect, read_headers, read_rest, next_header,
}
use caviar_hacker_grid.Handlers.Proxy.Sockets.{buf_size, joined}
use caviar_hacker_grid.Handlers.Proxy.Sockets.Reading.{HasByte, socket_read_to_eof_lem}
use caviar_hacker_grid.Handlers.Proxy.Sockets.Separators.{read_until_lem}
use caviar_hacker_grid.Handlers.Proxy.Stream.{read_next_header}
use caviar_hacker_grid.Handlers.Proxy.Stream.Reading.{stream, read_next_header_line}
use caviar_hacker_grid.Handlers.Proxy.Trimming.{trim-between}
use caviar_hacker_grid.Http.Request.{crlf, crlf_crlf}
use caviar_hacker_grid.Http.Request.Blocks.{
  blocks, find-blocks, length-header_lines, header_lines-cons,
}
use caviar_hacker_grid.Http.Request.Lines.{is_cr}
use caviar_hacker_grid.Http.Request.Serial.{IsHeader, is_name_end, line, line-None-is_cr}
use caviar_hacker_grid.Http.Response.{
  Response, add_header, set_body, set_status_number, header_lines,
}

abbrev pub is_lf : ℕ → Bool
is_lf c = c == b'\n'

-- A name without colons and a value, on one line.
abbrev pub IsReplyHeader : Bytes × Bytes → Type 0
IsReplyHeader h = IsHeader h × None is_lf (line h)

-- What the headers of a reply ask for: the values with no blanks around them, up to a redirect; without
-- one, the body.
abbrev pub followed :
    (Bytes → Response → Answer) → ℕ → Bytes → List (Bytes × Bytes) → Response → Answer
followed redirect code body [] r = done (ok, set_body body r)
followed redirect code body ((name, value) ∷ hs) r = elim (is_redirect code name) [
  | true ↦ redirect (trim value) r
  | false ↦ followed redirect code body hs (add_header name (trim value) r)
]

All-IsHeader : (hs : List (Bytes × Bytes)) → All IsReplyHeader hs → All IsHeader hs
All-IsHeader [] a = tt
All-IsHeader (h ∷ hs) (p, a) = (p.0, All-IsHeader hs a)

next_header_line :
    (name value s : Bytes)
    → IsReplyHeader (name, value)
    → read_next_header (stream (line (name, value) ++ (crlf ++ s)))
      ≡ next_header name (trim value) (stream s)
next_header_line name value s ((n, v), l) =
    let text : (name ++ b':' ∷ ((b' ' ∷ value) ++ b'\r' ∷ [])) ++ b'\n' ∷ s
        ≡ line (name, value) ++ (crlf ++ s) =
      simp append_assoc in
    ap (λ t. read_next_header (stream t)) (sym text)
    ∙ read_next_header_line name (b' ' ∷ value) s
        (None-weaken is_name_end (λ c. c == b':') name (λ c h. ground arith) n)
        (None-weaken is_name_end is_cr name (λ c h. ground arith) n)
        (subst (None is_lf) (append_assoc name (codes ": " ++ value) (b'\r' ∷ []))
          (None-append is_lf (line (name, value)) (b'\r' ∷ []) l (refl, tt)))
    ∙ ap (λ t. next_header name t (stream s)) (trim-between b' ' value b'\r' refl refl)

-- The loop over the headers.
read_headers-lines :
    (redirect : Bytes → Response → Answer) (n code : ℕ) (hs : List (Bytes × Bytes)) (more : Bytes)
    (left : List Bytes) (r : Response)
    → length hs < n
    → All IsReplyHeader hs
    → All HasByte left
    → read_headers n redirect
        (record { chunks = left; ended = true })
        code
        (stream (header_lines hs ++ (crlf ++ more)))
        r
      ≡ followed redirect code (more ++ joined left) hs r
unfolding read_headers finish header_lines
read_headers-lines redirect zero code hs more left r l a b = ground arith
read_headers-lines redirect (suc n) code [] more left r l a b =
    rw (read_headers, finish, socket_read_to_eof_lem more left b) refl
read_headers-lines redirect (suc n) code ((name, value) ∷ hs) more left r l (p, a) b =
    let text = header_lines-cons (name, value) hs (crlf ++ more) in
    let next =
      ap (λ t. read_next_header (stream t)) text
      ∙ next_header_line name value (header_lines hs ++ (crlf ++ more)) p in
    elim (Bool-cases (is_redirect code name)) [
      | inl e ↦ rw (read_headers, next, followed, e) refl
      | inr e ↦
          rw (read_headers, next, followed, e)
            (read_headers-lines redirect n code hs more left (add_header name (trim value) r)
              (omega (arith, l)) a b)
    ]

-- No blank line ends within the headers.
header_lines_end :
    (hs : List (Bytes × Bytes)) (body : Bytes) (j : ℕ)
    → All IsReplyHeader hs
    → find crlf_crlf ((header_lines hs ++ crlf) ++ body) ≡ some j
    → length (header_lines hs ++ crlf) ≤ j + length crlf_crlf
unfolding header_lines
header_lines_end [] body j a e = omega arith
header_lines_end (h ∷ hs) body j (p, a) e =
    let text : (header_lines (h ∷ hs) ++ crlf) ++ body ≡ blocks (line h) hs body =
      append_assoc (header_lines (h ∷ hs)) crlf body ∙ header_lines-cons h hs (crlf ++ body) in
    let at = find-blocks (line h) hs body (line-None-is_cr h p.0) (All-IsHeader hs a) in
    let same : length (line h) + length (header_lines hs) ≡ j =
      let f : some (length (line h) + length (header_lines hs)) ≡ some j =
        sym at ∙ ap (find crlf_crlf) (sym text) ∙ e in
      cc in
    omega (arith, same, length-append (header_lines (h ∷ hs)) crlf, length-header_lines h hs)

length-hs-le : (hs : List (Bytes × Bytes)) → length hs ≤ length (header_lines hs)
length-hs-le [] = omega arith
length-hs-le (h ∷ hs) = omega (arith, length-header_lines h hs, length-hs-le hs)

module _ (redirect : Bytes → Response → Answer) (code : ℕ) (hs : List (Bytes × Bytes))
    (body : Bytes) (a : All IsReplyHeader hs)
    (l : length (header_lines hs ++ crlf) ≤ buf_size) where
  -- What stands behind the status line.
  pub read_rest_lem :
      (more : Bytes) (left : List Bytes) (r : Response)
      → more ++ joined left ≡ header_lines hs ++ (crlf ++ body)
      → All HasByte left
      → read_rest redirect (record { chunks = left; ended = true }) code (stream more) r
        ≡ followed redirect code body hs (set_status_number code r)
  unfolding read_rest
  read_rest_lem more left r e b =
      let (more', left', f, g, c) =
        read_until_lem b'\r' (b'\n' ∷ crlf) more left (header_lines hs ++ crlf) body
          (e ∙ sym (append_assoc (header_lines hs) crlf body))
          (λ j h. header_lines_end hs body j a h) l b in
      let buffer = (header_lines hs ++ crlf) ++ more' in
      let rest : Reply = record { chunks = left'; ended = true } in
      let r' = set_status_number code r in
      let enough : length hs < suc (length buffer) = omega (
        arith,
        length-append (header_lines hs ++ crlf) more',
        length-append (header_lines hs) crlf,
        length-hs-le hs,
      ) in
      rw (read_rest, f)
        (ap (λ s. read_headers (suc (length buffer)) redirect rest code (stream s) r')
            (append_assoc (header_lines hs) crlf more')
          ∙ read_headers-lines redirect (suc (length buffer)) code hs more' left' r' enough a c
          ∙ ap (λ text. followed redirect code text hs r') g)
