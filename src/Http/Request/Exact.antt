-- ===== src/Http/Request/Exact.antt =====
-- Which texts `Request::Parse` takes, and as which request.
use caviar_hacker_grid.Base.{
  ℕ, ◌+◌, true, false, List, [], ◌∷◌, ◌++◌, some, ◌≡◌, ◌∙◌, refl, ap, sym, arith, ◌==◌, length,
  length-append, append_assoc, inl, inr, ◌↔◌,
}
use caviar_hacker_grid.Base.StdMap.{assign}
use caviar_hacker_grid.Base.StdMap.Keys.{text_order}
use caviar_hacker_grid.Base.Text.{Bytes, None, codes, find, c_str, substr, substr-length_append}
use caviar_hacker_grid.Http.Request.{
  Request, new_request, parsed, crlf, crlf_crlf, process_request_line, process_message_body,
  process_headers, read_headers, parse,
}
use caviar_hacker_grid.Http.Request.Headers.{is_colon, IsLineOf, AreLinesOf, AreHeadersOf, stored}
use caviar_hacker_grid.Http.Request.Serial.{take_name}
use caviar_hacker_grid.Http.Request.Sound.{IsReadFrom, parse-IsReadFrom, request_fields}
use caviar_hacker_grid.Http.Request.Splits.{split_spaces_iff, split_lines_iff}

find_colon :
    (name s : Bytes) → None is_colon name → find (codes ":") (name ++ b':' ∷ s) ≡ some (length name)
unfolding find
find_colon [] s n = refl
find_colon (c ∷ name) s (p, n) = ground (arith, find_colon name s n)

behind :
    (name value : Bytes) (x : ℕ) → substr (name ++ b':' ∷ x ∷ value) (length name + 2) ≡ some value
behind name value x =
    let front = name ++ b':' ∷ x ∷ [] in
    let size : length name + 2 ≡ length front = omega (arith, length-append name (b':' ∷ x ∷ [])) in
    ap (substr (name ++ b':' ∷ x ∷ value)) size
    ∙ ap (λ t. substr t (length front)) (sym (append_assoc name (b':' ∷ x ∷ []) value))
    ∙ substr-length_append front value

read_line :
    (line name value : Bytes) (lines : List Bytes) (r : Request)
    → IsLineOf line (name, value)
    → read_headers (line ∷ lines) r
      ≡ read_headers lines (record r { header_fields = assign name value r.header_fields })
unfolding read_headers
read_line line name value lines r (n, x, e) =
    ap (λ t. read_headers (t ∷ lines) r) e
    ∙ rw
        (
          read_headers,
          find_colon name (x ∷ value) n,
          take_name name (b':' ∷ x ∷ value),
          behind name value x,
        )
        refl

read_headers-stored :
    (lines : List Bytes) (hs : List (Bytes × Bytes)) (r : Request)
    → AreLinesOf lines hs
    → read_headers lines r ≡ parsed (record r { header_fields = stored hs r.header_fields })
unfolding read_headers
read_headers-stored [] [] r a = refl
read_headers-stored [] (h ∷ hs) r a = absurd a
read_headers-stored (line ∷ lines) [] r a = absurd a
read_headers-stored (line ∷ lines) ((name, value) ∷ hs) r (l, a) =
    read_line line name value lines r l
    ∙ read_headers-stored lines hs (record r { header_fields = assign name value r.header_fields })
        a

process_headers-stored :
    (raw : Bytes) (i j : ℕ) (hs : List (Bytes × Bytes)) (r : Request)
    → find crlf raw ≡ some i
    → find crlf_crlf raw ≡ some j
    → AreHeadersOf raw i j hs
    → process_headers raw r ≡ parsed (record r { header_fields = stored hs r.header_fields })
unfolding process_headers
process_headers-stored raw i j hs r fi fj (inl (same, none_read)) =
    let t : i == j ≡ true = ground (arith, same) in rw (process_headers, fi, fj, t, none_read) refl
process_headers-stored raw i j hs r fi fj (inr (ne, text, cut, lines, are, a)) =
    let t : i == j ≡ false = ground (arith, ne) in
    rw (process_headers, fi, fj, t, cut, (split_lines_iff text lines).1 are)
      (read_headers-stored lines hs r a)

IsReadFrom-parse : (raw : Bytes) (r : Request) → IsReadFrom raw r → parse raw ≡ parsed r
unfolding parse process_request_line process_message_body
IsReadFrom-parse raw r k =
    let r₁ = record new_request {
      request_line = k.line;
      method = r.method;
      request_uri = r.request_uri;
      version = r.version;
    } in
    let r₂ = record r₁ { message_body = r.message_body } in
    let e₁ : process_request_line raw new_request ≡ parsed r₁ =
      rw
        (
          process_request_line,
          k.line_found,
          k.line_taken,
          (split_spaces_iff (c_str k.line) (request_fields r)).1 k.fields,
        )
        refl in
    let e₂ : process_message_body raw r₁ ≡ parsed r₂ =
      rw (process_message_body, k.body_found, k.body_taken) refl in
    let e₃ =
      process_headers-stored raw k.line_end k.body_start k.header_list r₂ k.line_found k.body_found
        k.headers_read in
    let whole : List (Bytes × Bytes) → List (Bytes × Bytes) → Bytes → Bytes → Request =
      λ fields headers text line. record r {
        header_fields = fields;
        headers = headers;
        raw_request = text;
        request_line = line;
      } in
    let list = stored k.header_list [] in
    let returns : parse raw ≡ parsed (whole list list raw k.line) = rw (parse, e₁, e₂, e₃) refl in
    returns
    ∙ ap (λ m. parsed (whole m list raw k.line)) (sym k.headers_stored ∙ k.header_copy)
    ∙ ap (λ m. parsed (whole r.header_fields m raw k.line)) (sym k.headers_stored)
    ∙ ap (λ t. parsed (whole r.header_fields r.headers t k.line)) (sym k.raw_kept)
    ∙ ap (λ t. parsed (whole r.header_fields r.headers r.raw_request t)) (sym k.line_kept)

-- `Parse` returns a request if and only if it was read from the text: its request line is what stands
-- before the first CRLF, its three fields are the longest runs of bytes that are no space in that line, up
-- to a NUL, its body is what stands behind the first blank line, each line between them, cut at every CRLF from the left, is a name with no
-- colon, a colon, one byte that is passed over and a value, and its headers are those names with the
-- last value of each, in order, each name once.
pub parse_iff : (raw : Bytes) (r : Request) → (parse raw ≡ parsed r) ↔ IsReadFrom raw r
parse_iff raw r = (parse-IsReadFrom raw r, IsReadFrom-parse raw r)
