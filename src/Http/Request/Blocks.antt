-- ===== src/Http/Request/Blocks.antt =====
-- The steps of `ParseRequest` on a text made of a request line, header lines and a body.
use caviar_hacker_grid.Base.{
  ℕ, ◌+◌, ◌-◌, Bool, false, List, [], ◌∷◌, ◌++◌, some, ◌≡◌, ◌≢◌, ◌∙◌, refl, ap, sym, arith, ◌==◌,
  length, length-append, take-length_append, drop-length_append, append-nil, append_assoc, All,
}
use caviar_hacker_grid.Base.StdMap.{StdMap, IsSorted}
use caviar_hacker_grid.Base.StdMap.Keys.{text_order}
use caviar_hacker_grid.Base.Text.{
  Bytes, None, None-append, None-weaken, find, codes, substr, substr_len, substr-length_append,
}
use caviar_hacker_grid.Http.Response.{header_lines}
use caviar_hacker_grid.Http.Request.{
  Request, parsed, crlf, crlf_crlf, process_headers, process_message_body, process_request_line,
}
use caviar_hacker_grid.Http.Request.Lines.{
  is_cr, is_nul, ends_field, request_line, c_str_of_None, split_request_line, find-crlf,
  find_blank_line, find_blank_line_later, ends_field, request_line,
}
use caviar_hacker_grid.Http.Request.Serial.{
  line, IsHeader, joined, line-None-is_cr, header_lines-joined, split_lines-joined,
  read_headers_lines, take_name,
}

-- A text of the three parts.
abbrev pub blocks : Bytes → List (Bytes × Bytes) → Bytes → Bytes
blocks first hs body = first ++ (crlf ++ (header_lines hs ++ (crlf ++ body)))

pub header_lines-cons :
    (h : Bytes × Bytes) (hs : List (Bytes × Bytes)) (s : Bytes)
    → header_lines (h ∷ hs) ++ s ≡ line h ++ (crlf ++ (header_lines hs ++ s))
unfolding header_lines
header_lines-cons (name, value) hs s = simp append_assoc

pub length-header_lines :
    (h : Bytes × Bytes) (hs : List (Bytes × Bytes))
    → length (header_lines (h ∷ hs)) ≡ length (line h) + (2 + length (header_lines hs))
length-header_lines h hs =
    ap length (sym (append-nil (header_lines (h ∷ hs))) ∙ header_lines-cons h hs [])
    ∙ omega (
      arith,
      length-append (line h) (crlf ++ (header_lines hs ++ [])),
      length-append (header_lines hs) [],
    )

-- Where the blank line is found.
pub find-blocks :
    (first : Bytes) (hs : List (Bytes × Bytes)) (body : Bytes)
    → None is_cr first
    → All IsHeader hs
    → find crlf_crlf (blocks first hs body) ≡ some (length first + length (header_lines hs))
unfolding header_lines
find-blocks first [] body n a = find_blank_line first body n ∙ ap some (omega arith)
find-blocks first (([], value) ∷ hs) body n (p, a) =
    let h : Bytes × Bytes = ([], value) in
    let rest = find-blocks (line h) hs body (line-None-is_cr h p) a in
    ap (λ s. find crlf_crlf (first ++ (crlf ++ s))) (header_lines-cons h hs (crlf ++ body))
    ∙ find_blank_line_later first b':' _ _ n refl rest
    ∙ ap some (omega (arith, length-header_lines h hs))
find-blocks first ((c ∷ name, value) ∷ hs) body n (p, a) =
    let h : Bytes × Bytes = (c ∷ name, value) in
    let rest = find-blocks (line h) hs body (line-None-is_cr h p) a in
    ap (λ s. find crlf_crlf (first ++ (crlf ++ s))) (header_lines-cons h hs (crlf ++ body))
    ∙ find_blank_line_later first c _ _ n (line-None-is_cr h p).0 rest
    ∙ ap some (omega (arith, length-header_lines h hs))

substr-at : (p s : Bytes) (i : ℕ) → i ≡ length p → substr (p ++ s) i ≡ some s
substr-at p s i e = ap (substr (p ++ s)) e ∙ substr-length_append p s

substr_len-middle :
    (p q s : Bytes) (i n : ℕ)
    → i ≡ length p
    → n ≡ length q
    → substr_len (p ++ (q ++ s)) i n ≡ some q
unfolding substr_len
substr_len-middle p q s i n e f =
    rw (e, f)
      (ground
        (arith, length-append p (q ++ s), drop-length_append p (q ++ s), take-length_append q s))

-- `processMessageBody` takes what stands behind the blank line.
pub process_message_body-blocks :
    (first : Bytes) (hs : List (Bytes × Bytes)) (body : Bytes) (r : Request)
    → None is_cr first
    → All IsHeader hs
    → process_message_body (blocks first hs body) r ≡ parsed (record r { message_body = body })
unfolding process_message_body
process_message_body-blocks first hs body r n a =
    let e = length first + length (header_lines hs) in
    let front = first ++ (crlf ++ (header_lines hs ++ crlf)) in
    let split : blocks first hs body ≡ front ++ body = simp append_assoc in
    let size : e + 4 ≡ length front = omega (
      arith,
      length-append first (crlf ++ (header_lines hs ++ crlf)),
      length-append (header_lines hs) crlf,
    ) in
    let taken : substr (blocks first hs body) (e + 4) ≡ some body =
      ap (λ t. substr t (e + 4)) split ∙ substr-at front body (e + 4) size in
    rw (process_message_body, find-blocks first hs body n a, taken)

-- `processHeaders` reads the header lines.
pub process_headers-blocks :
    (first : Bytes) (hs : StdMap Bytes Bytes) (body : Bytes) (r : Request)
    → None is_cr first
    → All IsHeader hs
    → IsSorted hs
    → process_headers (blocks first hs body) (record r { header_fields = [] })
      ≡ parsed (record r { header_fields = hs })
unfolding process_headers header_lines
process_headers-blocks first [] body r n a s =
    ground (arith, find-crlf first (crlf ++ body) n, find-blocks first [] body n a)
process_headers-blocks first (h ∷ hs) body r n (p, a) s =
    let e = length first + length (header_lines (h ∷ hs)) in
    let size = ap length (header_lines-joined h hs) ∙ length-append (joined h hs) crlf in
    let differ : (length first == e) ≡ false = ground (arith, size) in
    let split : blocks first (h ∷ hs) body
        ≡ (first ++ crlf) ++ (joined h hs ++ (crlf ++ (crlf ++ body))) =
      ap (λ x. first ++ (crlf ++ (x ++ (crlf ++ body)))) (header_lines-joined h hs)
      ∙ simp append_assoc in
    let taken : substr_len (blocks first (h ∷ hs) body) (length first + 2) (e - (length first + 2))
        ≡ some (joined h hs) =
      ap (λ t. substr_len t (length first + 2) (e - (length first + 2))) split
      ∙ substr_len-middle (first ++ crlf) (joined h hs) (crlf ++ (crlf ++ body)) _ _
          (omega (arith, length-append first crlf)) (omega (arith, size)) in
    rw
      (
        process_headers,
        find-crlf first (header_lines (h ∷ hs) ++ (crlf ++ body)) n,
        find-blocks first (h ∷ hs) body n (p, a),
        differ,
        taken,
        split_lines-joined h hs p a,
      )
      (read_headers_lines r [] (h ∷ hs) s (p, a))

pub request_line-None :
    (p : ℕ → Bool) (a b c : Bytes)
    → p b' ' ≡ false
    → ((x : ℕ) → ends_field x ≡ false → p x ≡ false)
    → None ends_field a
    → None ends_field b
    → None ends_field c
    → None p (request_line a b c)
request_line-None p a b c h f ha hb hc =
    None-append p a (codes " " ++ (b ++ (codes " " ++ c))) (None-weaken ends_field p a f ha) (
      h,
      None-append p b (codes " " ++ c) (None-weaken ends_field p b f hb)
          (h, None-weaken ends_field p c f hc),
    )

-- `processRequestLine` reads the three fields.
pub process_request_line-blocks :
    (method uri version : Bytes) (hs : StdMap Bytes Bytes) (body : Bytes) (r : Request)
    → None ends_field method
    → None ends_field uri
    → None ends_field version
    → method ≢ []
    → uri ≢ []
    → version ≢ []
    → process_request_line (blocks (request_line method uri version) hs body) r
      ≡ parsed (record r {
        request_line = request_line method uri version;
        method = method;
        request_uri = uri;
        version = version;
      })
unfolding process_request_line
process_request_line-blocks method uri version hs body r ha hb hc na nb nc =
    let first = request_line method uri version in
    let rest = header_lines hs ++ (crlf ++ body) in
    let one_line = request_line-None is_cr method uri version refl (λ c p. ground arith) ha hb hc in
    let no_nul = request_line-None is_nul method uri version refl (λ c p. ground arith) ha hb hc in
    rw (
      process_request_line,
      find-crlf first rest one_line,
      take_name first (crlf ++ rest),
      c_str_of_None first no_nul,
      split_request_line method uri version ha hb hc na nb nc,
    )
