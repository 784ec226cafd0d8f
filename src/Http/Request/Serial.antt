-- ===== src/Http/Request/Serial.antt =====
-- Reading back the header lines that are printed.
use caviar_hacker_grid.Base.{
  ℕ, ◌+◌, Bool, ◌||◌, List, [], ◌∷◌, ◌++◌, some, ◌≡◌, ◌∙◌, refl, ap, sym, arith, ◌==◌, length, drop,
  length-append, take-length_append, drop-length_append, append-nil, append_assoc, map, All, subst,
}
use caviar_hacker_grid.Base.StdMap.{StdMap, IsSorted}
use caviar_hacker_grid.Base.StdMap.Laws.{update_last}
use caviar_hacker_grid.Base.StdMap.Keys.{text_order}
use caviar_hacker_grid.Base.Text.{
  Bytes, None, None-append, find, codes, substr, substr_len, None-weaken,
}
use caviar_hacker_grid.Http.Request.{Request, parsed, crlf, read_headers, split_lines}
use caviar_hacker_grid.Http.Response.{header_lines}
use caviar_hacker_grid.Http.Request.Lines.{is_cr, split_lines_last, split_lines-crlf}

-- The line of a header.
abbrev pub line : Bytes × Bytes → Bytes
line (name, value) = name ++ (codes ": " ++ value)

abbrev pub is_name_end : ℕ → Bool
is_name_end c = c == b':' || c == b'\r'

-- A name without colons and a value, both on one line.
abbrev pub IsHeader : Bytes × Bytes → Type 0
IsHeader (name, value) = None is_name_end name × None is_cr value

find_colon :
    (name value : Bytes)
    → None is_name_end name
    → find (codes ":") (line (name, value)) ≡ some (length name)
unfolding find
find_colon [] value n = refl
find_colon (c ∷ name) value (p, n) = ground (arith, find_colon name value n)

pub take_name : (name s : Bytes) → substr_len (name ++ s) 0 (length name) ≡ some name
unfolding substr_len
take_name name s = ground (arith, take-length_append name s)

drop_two : (name value : Bytes) → drop (length name + 2) (line (name, value)) ≡ value
drop_two name value =
    let front = name ++ codes ": " in
    let size : length name + 2 ≡ length front = omega (arith, length-append name (codes ": ")) in
    ap (λ n. drop n (line (name, value))) size
    ∙ ap (drop (length front)) (sym (append_assoc name (codes ": ") value))
    ∙ drop-length_append front value

take_value : (name value : Bytes) → substr (line (name, value)) (length name + 2) ≡ some value
unfolding substr
take_value name value =
    ground (arith, drop_two name value, length-append name (codes ": " ++ value))

-- The header lines of a sorted map give the map back.
pub read_headers_lines :
    (r : Request) (m hs : StdMap Bytes Bytes)
    → IsSorted (m ++ hs)
    → All IsHeader hs
    → read_headers (map line hs) (record r { header_fields = m })
      ≡ parsed (record r { header_fields = m ++ hs })
unfolding read_headers
read_headers_lines r m [] s h = rw append-nil
read_headers_lines r m ((name, value) ∷ hs) s ((n, v), h) =
    let m' = m ++ (name, value) ∷ [] in
    let placed = update_last (λ _. value) name value m hs s in
    let rest =
      read_headers_lines r m' hs (subst IsSorted (sym (append_assoc m ((name, value) ∷ []) hs)) s)
        h in
    rw
      (
        read_headers,
        find_colon name value n,
        take_name name (codes ": " ++ value),
        take_value name value,
        placed,
      )
      (rest
        ∙ ap (λ x. parsed (record r { header_fields = x }))
            (append_assoc m ((name, value) ∷ []) hs))

-- The header lines without the last line break.
abbrev pub joined : Bytes × Bytes → List (Bytes × Bytes) → Bytes
joined h [] = line h
joined h (h' ∷ hs) = line h ++ (crlf ++ joined h' hs)

pub line-None-is_cr : (h : Bytes × Bytes) → IsHeader h → None is_cr (line h)
line-None-is_cr (name, value) (n, v) =
    None-append is_cr name (codes ": " ++ value)
      (None-weaken is_name_end is_cr name (λ c p. ground arith) n) (refl, (refl, v))

pub split_lines-joined :
    (h : Bytes × Bytes) (hs : List (Bytes × Bytes))
    → IsHeader h
    → All IsHeader hs
    → split_lines [] (joined h hs) ≡ map line (h ∷ hs)
split_lines-joined h [] p a = split_lines_last [] (line h) (line-None-is_cr h p)
split_lines-joined h (h' ∷ hs) p (q, a) =
    split_lines-crlf [] (line h) (joined h' hs) (line-None-is_cr h p)
    ∙ ap (◌∷◌ (line h)) (split_lines-joined h' hs q a)

pub header_lines-joined :
    (h : Bytes × Bytes) (hs : List (Bytes × Bytes)) → header_lines (h ∷ hs) ≡ joined h hs ++ crlf
unfolding header_lines
header_lines-joined (name, value) [] = simp append_assoc
header_lines-joined (name, value) (h' ∷ hs) =
    ap (λ x. name ++ (codes ": " ++ (value ++ (crlf ++ x)))) (header_lines-joined h' hs)
    ∙ simp append_assoc
