-- ===== src/Http/Request/Splits.antt =====
-- What the words of a text and its lines are, and that the two loops of the parser cut at them.
use caviar_hacker_grid.Base.{
  ℕ, zero, suc, ◌+◌, ◌<◌, false, List, [], ◌∷◌, ◌++◌, none, some, ◌≡◌, ◌≢◌, ◌∙◌, refl, sym, ap,
  arith, ◌==◌, inl, inr, length, take, drop, take-length_append, drop-length_append, length-append,
  append-nil, append_assoc, subst, ◌↔◌, Bool-cases, ◌&&◌,
}
use caviar_hacker_grid.Base.Text.{Bytes, None, None-append, find, codes}
use caviar_hacker_grid.Http.Request.{crlf, split_spaces, split_lines, flush}
use caviar_hacker_grid.Http.Request.Lines.{
  is_space, split_spaces_last, split_spaces_space, flush_cons,
}

-- The words of a text: its longest runs of bytes that are no space, in order.
pub data AreWords : Bytes → List Bytes → Type 0 where
  no_more : AreWords [] []
  space : {s : Bytes} {ws : List Bytes} → AreWords s ws → AreWords (b' ' ∷ s) ws
  last_word : (w : Bytes) → None is_space w → w ≢ [] → AreWords w (w ∷ [])
  word :
      (w : Bytes) {s : Bytes} {ws : List Bytes}
      → None is_space w
      → w ≢ []
      → AreWords s ws
      → AreWords (w ++ b' ' ∷ s) (w ∷ ws)

flush-AreWords :
    (acc : Bytes) {s : Bytes} {ws : List Bytes}
    → None is_space acc
    → AreWords s ws
    → AreWords (acc ++ b' ' ∷ s) (flush acc ws)
flush-AreWords [] n a = space a
flush-AreWords (c ∷ acc) n a = word (c ∷ acc) n (λ e. cc) a

words-split_spaces : (acc s : Bytes) → None is_space acc → AreWords (acc ++ s) (split_spaces acc s)
unfolding split_spaces
words-split_spaces [] [] n = no_more
words-split_spaces (a ∷ acc) [] n =
    subst (λ t. AreWords t ((a ∷ acc) ∷ [])) (sym (append-nil (a ∷ acc)))
      (last_word (a ∷ acc) n (λ e. cc))
words-split_spaces acc (c ∷ s) n = elim (Bool-cases (c == b' ')) [
  | inl h ↦
      let is : b' ' ≡ c = ground (arith, h) in
      let words = flush-AreWords acc n (words-split_spaces [] s tt) in
      rw (split_spaces, h)
        (subst (λ d. AreWords (acc ++ d ∷ s) (flush acc (split_spaces [] s))) is words)
  | inr h ↦
      let words =
        words-split_spaces (acc ++ c ∷ []) s (None-append is_space acc (c ∷ []) n (h, tt)) in
      rw (split_spaces, h)
        (subst (λ t. AreWords t (split_spaces (acc ++ c ∷ []) s)) (append_assoc acc (c ∷ []) s)
          words)
]

AreWords-split_spaces : {s : Bytes} {ws : List Bytes} → AreWords s ws → split_spaces [] s ≡ ws
unfolding split_spaces
AreWords-split_spaces no_more = refl
AreWords-split_spaces (space a) = AreWords-split_spaces a
AreWords-split_spaces (last_word w n ne) = split_spaces_last [] w n ∙ flush_cons w [] ne
AreWords-split_spaces (word w {s} n ne a) =
    split_spaces_space [] w s n ∙ flush_cons w _ ne ∙ ap (◌∷◌ w) (AreWords-split_spaces a)

-- The calls of `strtok` give the words.
pub split_spaces_iff : (s : Bytes) (ws : List Bytes) → (split_spaces [] s ≡ ws) ↔ AreWords s ws
split_spaces_iff s ws =
    (λ e. subst (AreWords s) e (words-split_spaces [] s tt), AreWords-split_spaces)

-- The lines of a text: it is cut at each CRLF, from the left.
pub data AreLines : Bytes → List Bytes → Type 0 where
  last_line : (line : Bytes) → find (codes "\r\n") line ≡ none → AreLines line (line ∷ [])
  more :
      (line : Bytes) {s : Bytes} {lines : List Bytes}
      → find (codes "\r\n") (line ++ (codes "\r\n" ++ s)) ≡ some (length line)
      → AreLines s lines
      → AreLines (line ++ (codes "\r\n" ++ s)) (line ∷ lines)

-- Where the loop over a text cuts first.
data FirstBreak (acc s : Bytes) : Type 0 where
  no_break : find crlf s ≡ none → split_lines acc s ≡ (acc ++ s) ∷ [] → FirstBreak acc s
  break_at :
      (line rest : Bytes)
      → s ≡ line ++ (crlf ++ rest)
      → find crlf s ≡ some (length line)
      → split_lines acc s ≡ (acc ++ line) ∷ split_lines [] rest
      → FirstBreak acc s

FirstBreak-cons :
    (acc : Bytes) (c d : ℕ) (s : Bytes)
    → (c == b'\r' && d == b'\n') ≡ false
    → FirstBreak (acc ++ c ∷ []) (d ∷ s)
    → FirstBreak acc (c ∷ d ∷ s)
unfolding find split_lines
FirstBreak-cons acc c d s h (no_break f e) =
    no_break (ground (arith, h, f)) (ground (arith, h, e, append_assoc acc (c ∷ []) (d ∷ s)))
FirstBreak-cons acc c d s h (break_at line rest split f e) =
    break_at (c ∷ line) rest (ap (◌∷◌ c) split) (ground (arith, h, f))
      (ground (arith, h, e, append_assoc acc (c ∷ []) line))

split_lines-FirstBreak : (acc s : Bytes) → FirstBreak acc s
unfolding find split_lines
split_lines-FirstBreak acc [] = no_break refl (ap (λ t. t ∷ []) (sym (append-nil acc)))
split_lines-FirstBreak acc (c ∷ []) = no_break (ground arith) refl
split_lines-FirstBreak acc (c ∷ d ∷ s) = elim (Bool-cases (c == b'\r' && d == b'\n')) [
  | inl h ↦
      break_at [] s (ground (arith, h)) (ground (arith, h)) (ground (arith, h, append-nil acc))
  | inr h ↦ FirstBreak-cons acc c d s h (split_lines-FirstBreak (acc ++ c ∷ []) (d ∷ s))
]

-- What is left is shorter.
length-rest :
    (line rest s : Bytes)
    → s ≡ line ++ (crlf ++ rest)
    → length s ≡ length line + suc (suc (length rest))
length-rest line rest s e = ap length e ∙ length-append line (crlf ++ rest)

lines-split_lines : (n : ℕ) (s : Bytes) → length s < n → AreLines s (split_lines [] s)
lines-split_lines zero s h = absurd (omega (arith, h))
lines-split_lines (suc n) s h = elim (split_lines-FirstBreak [] s) [
  | no_break f e ↦ subst (AreLines s) (sym e) (last_line s f)
  | break_at line rest split f e ↦
      let later = lines-split_lines n rest (omega (arith, length-rest line rest s split, h)) in
      let whole = more line (ap (find crlf) (sym split) ∙ f) later in
      subst (AreLines s) (sym e)
        (subst (λ t. AreLines t (line ∷ split_lines [] rest)) (sym split) whole)
]

AreLines-split_lines :
    {s : Bytes} {lines : List Bytes} → AreLines s lines → split_lines [] s ≡ lines
AreLines-split_lines (last_line line f) = elim (split_lines-FirstBreak [] line) [
  | no_break g e ↦ e
  | break_at a rest split g e ↦ absurd (ground (arith, f, g))
]
AreLines-split_lines (more line {s} f a) = elim (split_lines-FirstBreak [] (line ++ (crlf ++ s))) [
  | no_break g e ↦ absurd (ground (arith, f, g))
  | break_at b rest split g e ↦
      let size : length b ≡ length line = ground (arith, f, g) in
      let front : b ≡ line =
        sym (take-length_append b (crlf ++ rest))
        ∙ ap (λ n. take n (b ++ (crlf ++ rest))) size
        ∙ ap (take (length line)) (sym split)
        ∙ take-length_append line (crlf ++ s) in
      let behind : crlf ++ rest ≡ crlf ++ s =
        sym (drop-length_append b (crlf ++ rest))
        ∙ ap (λ n. drop n (b ++ (crlf ++ rest))) size
        ∙ ap (drop (length line)) (sym split)
        ∙ drop-length_append line (crlf ++ s) in
      e
      ∙ ap (λ t. t ∷ split_lines [] rest) front
      ∙ ap (λ t. line ∷ split_lines [] (drop 2 t)) behind
      ∙ ap (◌∷◌ line) (AreLines-split_lines a)
]

-- The loop over a text gives its lines.
pub split_lines_iff :
    (s : Bytes) (lines : List Bytes) → (split_lines [] s ≡ lines) ↔ AreLines s lines
split_lines_iff s lines = (
  λ e. subst (AreLines s) e (lines-split_lines (suc (length s)) s (omega arith)),
  AreLines-split_lines,
)
