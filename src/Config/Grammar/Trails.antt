-- ===== src/Config/Grammar/Trails.antt =====
-- Putting texts of the grammar together from the front.
use caviar_hacker_grid.Base.{ℕ, List, [], ◌∷◌, ◌++◌, ◌≡◌, refl, ap, sym, append_assoc, subst}
use caviar_hacker_grid.Base.Text.{Bytes}
use caviar_hacker_grid.Config.{Configs}
use caviar_hacker_grid.Config.Grammar.{
  Gap, no_gap, blank, remark, Word, plain, quoted, Words, last_word, word, Statements, finish,
  simple, block,
}

pub Gap-append : {g h : Bytes} → Gap g → Gap h → Gap (g ++ h)
Gap-append no_gap k = k
Gap-append (blank e g) k = blank e (Gap-append g k)
Gap-append {h} (remark body {g} c n e gap) k =
    subst (λ x. Gap (b'#' ∷ x)) (sym (append_assoc body (c ∷ g) h))
      (remark body c n e (Gap-append gap k))

-- A gap may stand before the statements.
pub Statements-Gap : {h x : Bytes} {cs : Configs} → Gap h → Statements cs x → Statements cs (h ++ x)
Statements-Gap k (finish gap) = finish (Gap-append k gap)
Statements-Gap {h} k (simple g w x {ts} {cs} gap words more) =
    subst (Statements _) (append_assoc h g (w ++ (b';' ∷ x)))
      (simple (h ++ g) w x (Gap-append k gap) words more)
Statements-Gap {h} k (block g w y x gap words body more) =
    subst (Statements _) (append_assoc h g (w ++ (b'{' ∷ (y ++ (b'}' ∷ x)))))
      (block (h ++ g) w y x (Gap-append k gap) words body more)

abbrev HasFirst : Bytes → Type 0
HasFirst s = (c : ℕ) × (r : Bytes) × (s ≡ c ∷ r)

HasFirst-append : {s : Bytes} (t : Bytes) → HasFirst s → HasFirst (s ++ t)
HasFirst-append t (c, r, e) = (c, r ++ t, ap (λ x. x ++ t) e)

HasFirst-behind : (s : Bytes) {t : Bytes} → HasFirst t → HasFirst (s ++ t)
HasFirst-behind [] h = h
HasFirst-behind (c ∷ s) {t} h = (c, s ++ t, refl)

Word-HasFirst : {t rest : Bytes} → Word t rest → HasFirst t
Word-HasFirst (plain {c} {w} h n d) = (c, w, refl)
Word-HasFirst (quoted {q} w h n) = (q, w ++ q ∷ [], refl)

Words-HasFirst : {ending : ℕ} {ts : List Bytes} {u : Bytes} → Words ending ts u → HasFirst u
Words-HasFirst (last_word t g w gap) = HasFirst-append g (Word-HasFirst w)
Words-HasFirst (word t g u w gap words) = HasFirst-append (g ++ u) (Word-HasFirst w)

-- Whether a word ends well shows in the byte behind it.
Word-byte : {t r : Bytes} (c : ℕ) (s : Bytes) → Word t (c ∷ s) → Word t (c ∷ r)
Word-byte c s (plain h n d) = plain h n d
Word-byte c s (quoted w h n) = quoted w h n

Word-front : (t r s : Bytes) → HasFirst r → Word t (r ++ s) → Word t r
Word-front t r s (c, r', e) w =
    subst (Word t) (sym e) (Word-byte c (r' ++ s) (subst (λ x. Word t (x ++ s)) e w))

-- What stands behind a word, up to the end of the statement: a gap, or a gap and words.
pub data Trail (ending : ℕ) : List Bytes → Bytes → Type 0 where
  over : {g : Bytes} → Gap g → Trail ending [] g
  more :
      (g u : Bytes) {t : Bytes} {ts : List Bytes}
      → Gap g
      → Words ending (t ∷ ts) u
      → Trail ending (t ∷ ts) (g ++ u)

pub Trail-Gap :
    {ending : ℕ} {h w : Bytes} {ts : List Bytes}
    → Gap h
    → Trail ending ts w
    → Trail ending ts (h ++ w)
Trail-Gap k (over gap) = over (Gap-append k gap)
Trail-Gap {h} k (more g u gap words) =
    subst (Trail _ _) (append_assoc h g u) (more (h ++ g) u (Gap-append k gap) words)

-- A word in front of what may follow it.
pub Trail-Words :
    {ending : ℕ} {w : Bytes} {ts : List Bytes} (t rest : Bytes)
    → Word t (w ++ ending ∷ rest)
    → Trail ending ts w
    → Words ending (t ∷ ts) (t ++ w)
Trail-Words {ending} {w} t rest wd (over gap) =
    last_word t w
      (Word-front t (w ++ ending ∷ []) rest (HasFirst-behind w (ending, [], refl))
        (subst (Word t) (sym (append_assoc w (ending ∷ []) rest)) wd))
      gap
Trail-Words {ending} t rest wd (more g u gap words) =
    word t g u (Word-front t (g ++ u) (ending ∷ rest) (HasFirst-behind g (Words-HasFirst words)) wd)
      gap words
