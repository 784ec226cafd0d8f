-- ===== src/Http/Request/Lines.antt =====
-- Searching and cutting a text at "\r\n".
use caviar_hacker_grid.Base.{
  ℕ, ◌+◌, Bool, false, ◌||◌, List, [], ◌∷◌, ◌++◌, some, ◌≡◌, ◌≢◌, ◌∙◌, refl, ap, arith, ◌==◌,
  length, append-nil, append_assoc,
}
use caviar_hacker_grid.Base.Text.{Bytes, None, None-weaken, find, c_str, codes}
use caviar_hacker_grid.Http.Request.{crlf, crlf_crlf, flush, split_spaces, split_lines}

abbrev pub is_cr : ℕ → Bool
is_cr c = c == b'\r'

-- A text that begins with `\r` is found behind bytes that are not `\r`.
find_skip :
    (a p s : Bytes) (i : ℕ)
    → None is_cr a
    → find (b'\r' ∷ p) s ≡ some i
    → find (b'\r' ∷ p) (a ++ s) ≡ some (length a + i)
unfolding find
find_skip [] p s i n h = h ∙ ap some (omega arith)
find_skip (c ∷ a) p s i (q, n) h = ground (arith, find_skip a p s i n h)

pub find-crlf : (a s : Bytes) → None is_cr a → find crlf (a ++ (crlf ++ s)) ≡ some (length a)
unfolding find
find-crlf a s n = find_skip a (b'\n' ∷ []) (crlf ++ s) 0 n refl ∙ ap some (omega arith)

pub find_blank_line :
    (a s : Bytes) → None is_cr a → find crlf_crlf (a ++ (crlf ++ (crlf ++ s))) ≡ some (length a)
unfolding find
find_blank_line a s n =
    find_skip a (b'\n' ∷ crlf) (crlf ++ (crlf ++ s)) 0 n refl ∙ ap some (omega arith)

-- A line that is not empty stands before the blank line.
pub find_blank_line_later :
    (a : Bytes) (c : ℕ) (s : Bytes) (i : ℕ)
    → None is_cr a
    → is_cr c ≡ false
    → find crlf_crlf (c ∷ s) ≡ some i
    → find crlf_crlf (a ++ (crlf ++ (c ∷ s))) ≡ some (length a + (i + 2))
unfolding find
find_blank_line_later a c s i n h e =
    find_skip a (b'\n' ∷ crlf) (crlf ++ (c ∷ s)) (i + 2) n (ground arith)

-- The header lines.
pub split_lines_last : (acc a : Bytes) → None is_cr a → split_lines acc a ≡ (acc ++ a) ∷ []
unfolding split_lines
split_lines_last acc [] n = rw append-nil
split_lines_last acc (c ∷ []) n = refl
split_lines_last acc (c ∷ d ∷ a) (p, n) =
    ground (arith, split_lines_last (acc ++ c ∷ []) (d ∷ a) n, append_assoc acc (c ∷ []) (d ∷ a))

pub split_lines-crlf :
    (acc a s : Bytes)
    → None is_cr a
    → split_lines acc (a ++ (crlf ++ s)) ≡ (acc ++ a) ∷ split_lines [] s
unfolding split_lines
split_lines-crlf acc [] s n = rw append-nil
split_lines-crlf acc (c ∷ []) s (p, n) =
    ground (arith, split_lines-crlf (acc ++ c ∷ []) [] s n, append_assoc acc (c ∷ []) [])
split_lines-crlf acc (c ∷ d ∷ a) s (p, n) =
    ground (arith, split_lines-crlf (acc ++ c ∷ []) (d ∷ a) s n, append_assoc acc (c ∷ []) (d ∷ a))

-- The bytes that cannot stand in a field of the request line.
abbrev pub ends_field : ℕ → Bool
ends_field c = c == b' ' || c == b'\r' || c == 0

abbrev pub is_space : ℕ → Bool
is_space c = c == b' '

pub split_spaces_last : (acc a : Bytes) → None is_space a → split_spaces acc a ≡ flush (acc ++ a) []
unfolding split_spaces
split_spaces_last acc [] n = rw append-nil
split_spaces_last acc (c ∷ a) (p, n) =
    ground (arith, split_spaces_last (acc ++ c ∷ []) a n, append_assoc acc (c ∷ []) a)

pub split_spaces_space :
    (acc a s : Bytes)
    → None is_space a
    → split_spaces acc (a ++ b' ' ∷ s) ≡ flush (acc ++ a) (split_spaces [] s)
unfolding split_spaces
split_spaces_space acc [] s n = rw append-nil
split_spaces_space acc (c ∷ a) s (p, n) =
    ground (arith, split_spaces_space (acc ++ c ∷ []) a s n, append_assoc acc (c ∷ []) a)

pub flush_cons : (a : Bytes) (ts : List Bytes) → a ≢ [] → flush a ts ≡ a ∷ ts
flush_cons [] ts h = absurd (h refl)
flush_cons (c ∷ a) ts h = refl

field-None : (a : Bytes) → None ends_field a → None is_space a
field-None a h = None-weaken ends_field is_space a (λ c p. ground arith) h

abbrev pub request_line : Bytes → Bytes → Bytes → Bytes
request_line a b c = a ++ (codes " " ++ (b ++ (codes " " ++ c)))

module _ (a b c : Bytes) (ha : None ends_field a) (hb : None ends_field b)
    (hc : None ends_field c) where
  pub split_request_line :
      a ≢ [] → b ≢ [] → c ≢ [] → split_spaces [] (request_line a b c) ≡ a ∷ b ∷ c ∷ []
  split_request_line na nb nc =
      split_spaces_space [] a (b ++ b' ' ∷ c) (field-None a ha)
      ∙ flush_cons a _ na
      ∙ ap (◌∷◌ a) (split_spaces_space [] b c (field-None b hb) ∙ flush_cons b _ nb)
      ∙ ap (λ t. a ∷ b ∷ t) (split_spaces_last [] c (field-None c hc) ∙ flush_cons c [] nc)

abbrev pub is_nul : ℕ → Bool
is_nul c = c == 0

pub c_str_of_None : (s : Bytes) → None is_nul s → c_str s ≡ s
unfolding c_str
c_str_of_None [] n = refl
c_str_of_None (c ∷ s) (p, n) = ground (arith, c_str_of_None s n)
