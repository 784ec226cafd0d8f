-- ===== src/Http/Request/Headers.antt =====
-- What the loop over the header lines of `processHeaders` takes from each line.
use caviar_hacker_grid.Base.{
  ℕ, suc, ◌+◌, ◌-◌, Bool, List, [], ◌∷◌, ◌++◌, Option, none, some, ◌≡◌, ◌∙◌, refl, ap, sym, arith,
  ◌==◌, length, Bool-cases, Option-cases, inl, inr, subst, ◌⊎◌, length-append, append_assoc, ◌≢◌,
}
use caviar_hacker_grid.Base.StdMap.{StdMap, assign}
use caviar_hacker_grid.Base.StdMap.Keys.{text_order}
use caviar_hacker_grid.Base.Text.{
  Bytes, None, codes, find, substr, substr_len, starts_with, substr-length_append,
}
use caviar_hacker_grid.Http.Request.Serial.{take_name}
use caviar_hacker_grid.Http.Request.Splits.{AreLines, split_lines_iff}
use caviar_hacker_grid.Http.Request.{
  Request, Parsed, parsed, rejected, thrown, ◌>>=◌, or_reject, or_throw, read_headers, split_lines,
  process_headers, crlf, crlf_crlf,
}

pub >>=-eq-parsed :
    {A B : Type 0} (m : Parsed A) (k : A → Parsed B) {b : B}
    → (m >>= k) ≡ parsed b
    → (a : A) × (m ≡ parsed a) × (k a ≡ parsed b)
>>=-eq-parsed (parsed a) k h = (a, refl, h)
>>=-eq-parsed rejected k h = cc
>>=-eq-parsed thrown k h = cc

pub or_reject-parsed : {A : Type 0} (o : Option A) {a : A} → or_reject o ≡ parsed a → o ≡ some a
or_reject-parsed none e = cc
or_reject-parsed (some b) e = cc

pub or_throw-parsed : {A : Type 0} (o : Option A) {a : A} → or_throw o ≡ parsed a → o ≡ some a
or_throw-parsed none e = cc
or_throw-parsed (some b) e = cc

abbrev pub is_colon : ℕ → Bool
is_colon c = c == b':'

-- A line is a name with no colon, a colon, one byte that is passed over, and a value.
abbrev pub IsLineOf : Bytes → Bytes × Bytes → Type 0
IsLineOf line (name, value) =
    None is_colon name × (passed : ℕ) × (line ≡ name ++ b':' ∷ passed ∷ value)

-- The lines are those of the headers, in their order.
abbrev pub AreLinesOf : List Bytes → List (Bytes × Bytes) → Type 0
AreLinesOf [] [] = Unit
AreLinesOf (line ∷ lines) (h ∷ hs) = IsLineOf line h × AreLinesOf lines hs
AreLinesOf _ _ = ⊥

-- The headers stored one after the other, a later value in the place of an earlier one.
abbrev pub stored : List (Bytes × Bytes) → StdMap Bytes Bytes → StdMap Bytes Bytes
stored [] m = m
stored ((name, value) ∷ hs) m = stored hs (assign name value m)

-- The headers of a text whose first line ends at `i` and whose first blank line is at `j`.
abbrev pub AreHeadersOf : Bytes → ℕ → ℕ → List (Bytes × Bytes) → Type 0
AreHeadersOf raw i j hs =
    ((i ≡ j) × (hs ≡ []))
    ⊎ ((i ≢ j)
        × (text : Bytes) × (substr_len raw (i + 2) (j - (i + 2)) ≡ some text)
        × (lines : List Bytes) × AreLines text lines
        × AreLinesOf lines hs)

-- The first colon of a line, and what stands around it.
at_colon :
    (line : Bytes) (i : ℕ)
    → find (codes ":") line ≡ some i
    → (before after : Bytes) × (line ≡ before ++ b':' ∷ after)
      × None is_colon before
      × (length before ≡ i)
unfolding find starts_with
at_colon [] i e = cc
at_colon (c ∷ line) i e = elim (Bool-cases (c == b':')) [
  | inl h ↦
      let is : c ≡ b':' = ground (arith, h) in
      ([], line, ap (λ d. d ∷ line) is, tt, ground (arith, e, h))
  | inr h ↦ elim (Option-cases (find (codes ":") line)) [
    | inl n ↦ absurd (ground (arith, e, h, n))
    | inr (j, n) ↦
        let (before, after, split, none_before, size) = at_colon line j n in
        let next : suc j ≡ i = ground (arith, e, h, n) in
        (c ∷ before, after, ap (◌∷◌ c) split, (h, none_before), omega (arith, size, next))
  ]
]

-- Cutting a line at its first colon.
behind_colon :
    (before after value : Bytes)
    → substr (before ++ b':' ∷ after) (length before + 2) ≡ some value
    → (passed : ℕ) × (after ≡ passed ∷ value)
unfolding substr
behind_colon before [] value g = absurd (ground (arith, length-append before (codes ":"), g))
behind_colon before (x ∷ after) value g =
    let front = before ++ b':' ∷ x ∷ [] in
    let size : length before + 2 ≡ length front =
      omega (arith, length-append before (b':' ∷ x ∷ [])) in
    let whole : front ++ after ≡ before ++ b':' ∷ x ∷ after =
      append_assoc before (b':' ∷ x ∷ []) after in
    let taken : substr (before ++ b':' ∷ x ∷ after) (length before + 2) ≡ some after =
      ap (substr (before ++ b':' ∷ x ∷ after)) size
      ∙ ap (λ t. substr t (length front)) (sym whole)
      ∙ substr-length_append front after in
    let same : after ≡ value = cc in (x, ap (◌∷◌ x) same)

cut_line :
    (line name value : Bytes) (i : ℕ)
    → find (codes ":") line ≡ some i
    → substr_len line 0 i ≡ some name
    → substr line (i + 2) ≡ some value
    → IsLineOf line (name, value)
cut_line line name value i e f g =
    let (before, after, split, none_before, size) = at_colon line i e in
    let named : some before ≡ some name =
      sym (take_name before (b':' ∷ after))
      ∙ ap (substr_len (before ++ b':' ∷ after) 0) size
      ∙ ap (λ t. substr_len t 0 i) (sym split)
      ∙ f in
    let same : before ≡ name = cc in
    let (passed, behind) = behind_colon before after value (
      ap (λ n. substr (before ++ b':' ∷ after) (n + 2)) size
      ∙ ap (λ t. substr t (i + 2)) (sym split)
      ∙ g) in
    (
      subst (None is_colon) same none_before,
      passed,
      split ∙ ap (λ t. before ++ b':' ∷ t) behind ∙ ap (λ t. t ++ b':' ∷ passed ∷ value) same,
    )

pub read_headers-AreLinesOf :
    (lines : List Bytes) (r : Request) {r' : Request}
    → read_headers lines r ≡ parsed r'
    → (hs : List (Bytes × Bytes)) × AreLinesOf lines hs
      × (r'.header_fields ≡ stored hs r.header_fields)
unfolding read_headers
read_headers-AreLinesOf [] r {r'} e =
    ([], tt, ap (λ p. elim p [ parsed v ↦ v.header_fields | _ ↦ r.header_fields ]) (sym e))
read_headers-AreLinesOf (line ∷ lines) r e =
    let (cut, f, g) = >>=-eq-parsed (or_reject (find (codes ":") line)) _ e in
    let (name, h, i) = >>=-eq-parsed (or_throw (substr_len line 0 cut)) _ g in
    let (value, j, k) = >>=-eq-parsed (or_throw (substr line (cut + 2))) _ i in
    let is_line =
      cut_line line name value cut (or_reject-parsed _ f) (or_throw-parsed _ h)
        (or_throw-parsed _ j) in
    let (hs, are, all) = read_headers-AreLinesOf lines _ k in
    ((name, value) ∷ hs, (is_line, are), all)

pub process_headers-AreHeadersOf :
    (raw : Bytes) (i j : ℕ) (r : Request) {r' : Request}
    → find crlf raw ≡ some i
    → find crlf_crlf raw ≡ some j
    → process_headers raw r ≡ parsed r'
    → (hs : List (Bytes × Bytes)) × AreHeadersOf raw i j hs
      × (r'.header_fields ≡ stored hs r.header_fields)
unfolding process_headers
process_headers-AreHeadersOf raw i j r {r'} fi fj e = elim (Bool-cases (i == j)) [
  | inl t ↦
      let f : parsed r ≡ parsed r' = sym (rw (process_headers, fi, fj, t) refl) ∙ e in
      let same = ap (λ p. elim p [ parsed v ↦ v.header_fields | _ ↦ r.header_fields ]) (sym f) in
      ([], inl (ground (arith, t), refl), same)
  | inr t ↦
      let (text, f, g) =
        >>=-eq-parsed (or_throw (substr_len raw (i + 2) (j - (i + 2))))
          (λ text. read_headers (split_lines [] text) r)
          (sym (rw (process_headers, fi, fj, t) refl) ∙ e) in
      let (hs, are, all) = read_headers-AreLinesOf (split_lines [] text) r g in
      let cut = (split_lines_iff text (split_lines [] text)).0 refl in
      (
        hs,
        inr (λ q. ground (arith, q, t), text, or_throw-parsed _ f, split_lines [] text, cut, are),
        all,
      )
]
