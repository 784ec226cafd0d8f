-- ===== src/Http/Request/Sound.antt =====
-- What holds of a request that `Request::Parse` returns.
use caviar_hacker_grid.Base.{
  ℕ, ◌+◌, List, [], ◌∷◌, ◌++◌, some, ◌≡◌, ◌∙◌, refl, ap, sym, Bool-cases, inl, inr, subst,
}
use caviar_hacker_grid.Base.StdMap.{IsSorted}
use caviar_hacker_grid.Base.StdMap.Keys.{text_order}
use caviar_hacker_grid.Base.StdMap.Laws.{update-IsSorted}
use caviar_hacker_grid.Base.Text.{Bytes, codes, find, substr, substr_len, c_str}
use caviar_hacker_grid.Http.Request.Headers.{
  >>=-eq-parsed, or_reject-parsed, or_throw-parsed, AreHeadersOf, stored,
  process_headers-AreHeadersOf,
}
use caviar_hacker_grid.Http.Request.Splits.{AreWords, split_spaces_iff}
use caviar_hacker_grid.Http.Request.{
  Request, new_request, parsed, or_reject, or_throw, crlf, crlf_crlf, with_fields, split_spaces,
  split_lines, process_request_line, process_message_body, process_headers, read_headers,
  same_index, header_text, parse,
}

-- The fields of the request line.
abbrev pub request_fields : Request → List Bytes
request_fields r = r.method ∷ r.request_uri ∷ r.version ∷ []

-- What the loop over the header lines changes, and what it keeps.
abbrev Kept : Request → Request → Type 0
Kept r r' =
    (IsSorted r.header_fields → IsSorted r'.header_fields)
    × (r'.headers ≡ r.headers)
    × (r'.message_body ≡ r.message_body)
    × (request_fields r' ≡ request_fields r)
    × (r'.request_line ≡ r.request_line)

read_headers-Kept :
    (lines : List Bytes) (r : Request) {r' : Request} → read_headers lines r ≡ parsed r' → Kept r r'
unfolding read_headers
read_headers-Kept [] r {r'} e =
    let same : r ≡ r' = ap (λ p. elim p [ parsed v ↦ v | _ ↦ r ]) e in
    subst (Kept r) same (λ s. s, refl, refl, refl, refl)
read_headers-Kept (line ∷ lines) r e =
    let (cut, f, g) = >>=-eq-parsed (or_reject (find (codes ":") line)) _ e in
    let (name, h, i) = >>=-eq-parsed (or_throw (substr_len line 0 cut)) _ g in
    let (value, j, k) = >>=-eq-parsed (or_throw (substr line (cut + 2))) _ i in
    let (s, hs, b, l, m) = read_headers-Kept lines _ k in
    (λ t. s (update-IsSorted (λ _. value) name r.header_fields t), hs, b, l, m)

process_headers-Kept :
    (raw : Bytes) (r : Request) {r' : Request} → process_headers raw r ≡ parsed r' → Kept r r'
unfolding process_headers
process_headers-Kept raw r {r'} e =
    elim (Bool-cases (same_index (find crlf raw) (find crlf_crlf raw))) [
      | inl t ↦
          let f : parsed r ≡ parsed r' = sym (rw (process_headers, t) refl) ∙ e in
          let same : r ≡ r' = ap (λ p. elim p [ parsed v ↦ v | _ ↦ r ]) f in
          subst (Kept r) same (λ s. s, refl, refl, refl, refl)
      | inr t ↦
          let (text, f, g) =
            >>=-eq-parsed (or_throw (header_text raw (find crlf raw) (find crlf_crlf raw)))
              (λ text. read_headers (split_lines [] text) r)
              (sym (rw (process_headers, t) refl) ∙ e) in
          read_headers-Kept (split_lines [] text) r g
    ]

with_fields-parsed :
    (r : Request) (fields : List Bytes) {r' : Request}
    → with_fields r fields ≡ parsed r'
    → (request_fields r' ≡ fields)
      × (r'.header_fields ≡ r.header_fields)
      × (r'.headers ≡ r.headers)
      × (r'.request_line ≡ r.request_line)
with_fields-parsed r [] e = cc
with_fields-parsed r (a ∷ []) e = cc
with_fields-parsed r (a ∷ b ∷ []) e = cc
with_fields-parsed r (a ∷ b ∷ d ∷ f ∷ fields) e = cc
with_fields-parsed r (a ∷ b ∷ d ∷ []) {r'} e =
    let filled = record r { method = a; request_uri = b; version = d } in
    let same : filled ≡ r' = ap (λ p. elim p [ parsed v ↦ v | _ ↦ filled ]) e in
    subst
      (λ v.
        (request_fields v ≡ a ∷ b ∷ d ∷ [])
        × (v.header_fields ≡ r.header_fields)
        × (v.headers ≡ r.headers)
        × (v.request_line ≡ r.request_line))
      same (refl, refl, refl, refl)

-- What is known of a request that was read from a text: where its first line ends and its body
-- begins, that the fields of the line are its words, up to a NUL, that the lines
-- between the two are each a name with no colon, a colon, one byte and a value, which are stored in
-- their order, and that the headers stand in the order of their names.
pub record IsReadFrom (raw : Bytes) (r : Request) : Type 0 where
  pub line_end : ℕ
  pub line : Bytes
  pub line_found : find (codes "\r\n") raw ≡ some line_end
  pub line_taken : substr_len raw 0 line_end ≡ some line
  pub line_kept : r.request_line ≡ line
  pub fields : AreWords (c_str line) (request_fields r)
  pub body_start : ℕ
  pub body_found : find (codes "\r\n\r\n") raw ≡ some body_start
  pub body_taken : substr raw (body_start + 4) ≡ some r.message_body
  pub raw_kept : r.raw_request ≡ raw
  pub header_list : List (Bytes × Bytes)
  pub headers_read : AreHeadersOf raw line_end body_start header_list
  pub headers_stored : r.headers ≡ stored header_list []
  pub header_order : IsSorted r.headers
  pub header_copy : r.headers ≡ r.header_fields

-- A request that `Parse` returns was read from its text: the fields of its request line are the three
-- that stand in the first line up to the first CRLF, its body is what stands behind the first blank
-- line, each line between them is a name with no colon, a colon, one byte that is passed over and a
-- value, and its headers are those names with the last value of each, in order, each name once.
pub parse-IsReadFrom : (raw : Bytes) (r : Request) → parse raw ≡ parsed r → IsReadFrom raw r
unfolding parse process_request_line process_message_body
parse-IsReadFrom raw r e =
    let (r₁, e₁, f) = >>=-eq-parsed (process_request_line raw new_request) _ e in
    let (r₂, e₂, g) = >>=-eq-parsed (process_message_body raw r₁) _ f in
    let (r₃, e₃, h) = >>=-eq-parsed (process_headers raw r₂) _ g in
    let (i, fi, g₁) = >>=-eq-parsed (or_reject (find crlf raw)) _ e₁ in
    let (line, fl, g₂) = >>=-eq-parsed (or_throw (substr_len raw 0 i)) _ g₁ in
    let (fields, map, list, in_line) =
      with_fields-parsed (record new_request { request_line = line }) (split_spaces [] (c_str line))
        g₂ in
    let (j, fj, g₃) = >>=-eq-parsed (or_reject (find crlf_crlf raw)) _ e₂ in
    let (body, fb, g₄) = >>=-eq-parsed (or_throw (substr raw (j + 4))) _ g₃ in
    let with_body = record r₁ { message_body = body } in
    let same₂ : with_body ≡ r₂ = ap (λ p. elim p [ parsed v ↦ v | _ ↦ with_body ]) g₄ in
    let (sorted, copied, body_kept, fields_kept, line_kept) =
      subst (λ v. Kept v r₃) (sym same₂) (process_headers-Kept raw r₂ e₃) in
    let at_line = or_reject-parsed (find crlf raw) fi in
    let at_body = or_reject-parsed (find crlf_crlf raw) fj in
    let (hs, read, store) = process_headers-AreHeadersOf raw i j r₂ at_line at_body e₃ in
    let before : r₂.header_fields ≡ [] = ap (λ v. v.header_fields) (sym same₂) ∙ map in
    let whole = record r₃ { raw_request = raw; headers = r₃.headers ++ r₃.header_fields } in
    let same₃ : whole ≡ r = ap (λ p. elim p [ parsed v ↦ v | _ ↦ whole ]) h in
    let copy : r₃.headers ++ r₃.header_fields ≡ r₃.header_fields =
      ap (λ hs. hs ++ r₃.header_fields) (copied ∙ list) in
    let order : IsSorted r₃.header_fields = sorted (rw map tt) in
    subst (IsReadFrom raw) same₃ (record {
      line_end = i;
      line = line;
      line_found = at_line;
      line_taken = or_throw-parsed (substr_len raw 0 i) fl;
      line_kept = line_kept ∙ in_line;
      fields = (split_spaces_iff (c_str line) (request_fields r₃)).0 (sym (fields_kept ∙ fields));
      body_start = j;
      body_found = at_body;
      body_taken = or_throw-parsed (substr raw (j + 4)) fb ∙ ap some (sym body_kept);
      raw_kept = refl;
      header_list = hs;
      headers_read = read;
      headers_stored = copy ∙ store ∙ ap (stored hs) before;
      header_order = subst (IsSorted {V = Bytes}) (sym copy) order;
      header_copy = copy;
    })
