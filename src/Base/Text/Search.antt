-- ===== src/Base/Text/Search.antt =====
-- `find` on a text that is longer.
use caviar_hacker_grid.Base.{
  ℕ, ◌+◌, ◌≤◌, true, false, [], ◌∷◌, ◌++◌, some, ◌≡◌, refl, ◌∙◌, arith, length, Bool-cases,
  Option-cases, inl, inr,
}
use caviar_hacker_grid.Base.Text.{Bytes, starts_with, find}

starts_with_bound : (p s : Bytes) → starts_with p s ≡ true → length p ≤ length s
unfolding starts_with
starts_with_bound [] s h = omega arith
starts_with_bound (x ∷ p) [] h = cc
starts_with_bound (x ∷ p) (y ∷ s) h = ground (arith, starts_with_bound p s)

-- Bytes behind those that are compared make no difference.
starts_with_append :
    (p s t : Bytes) → length p ≤ length s → starts_with p (s ++ t) ≡ starts_with p s
unfolding starts_with
starts_with_append [] s t h = refl
starts_with_append (x ∷ p) [] t h = ground arith
starts_with_append (x ∷ p) (y ∷ s) t h = ground (arith, starts_with_append p s t)

-- What is found lies in the text.
pub find_bound : (p s : Bytes) (i : ℕ) → find p s ≡ some i → i + length p ≤ length s
unfolding find
find_bound p [] i e = ground (arith, starts_with_bound p [])
find_bound p (c ∷ s) i e = elim (Bool-cases (starts_with p (c ∷ s))) [
  | inl h ↦ ground (arith, starts_with_bound p (c ∷ s) h)
  | inr h ↦ elim (Option-cases (find p s)) [
    | inl n ↦ ground arith
    | inr (j, n) ↦ ground (arith, find_bound p s j n)
  ]
]

-- What is found in a text is found at the same place in a longer one.
pub find-append :
    (x : ℕ) (p s t : Bytes) (i : ℕ) → find (x ∷ p) s ≡ some i → find (x ∷ p) (s ++ t) ≡ some i
unfolding find
find-append x p [] t i e = ground (arith, starts_with_bound (x ∷ p) [])
find-append x p (c ∷ s) t i e = elim (Bool-cases (starts_with (x ∷ p) (c ∷ s))) [
  | inl h ↦
      ground (arith, starts_with_append (x ∷ p) (c ∷ s) t (starts_with_bound (x ∷ p) (c ∷ s) h))
  | inr h ↦ elim (Option-cases (find (x ∷ p) s)) [
    | inl n ↦ ground arith
    | inr (j, n) ↦
        let bound : j + length (x ∷ p) ≤ length s = find_bound (x ∷ p) s j n in
        let later : starts_with (x ∷ p) ((c ∷ s) ++ t) ≡ false =
          starts_with_append (x ∷ p) (c ∷ s) t (omega (arith, bound)) ∙ h in
        let rest = find-append x p s t j n in ground (arith, later, rest, h, n, e)
  ]
]
