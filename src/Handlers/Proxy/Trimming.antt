-- ===== src/Handlers/Proxy/Trimming.antt =====
-- `trim_copy` on a header's value as it stands in its line.
use caviar_hacker_grid.Base.{
  ℕ, true, [], ◌∷◌, ◌++◌, ◌≡◌, ◌⊎◌, inl, inr, refl, ap, ◌∙◌, arith, Bool-cases,
}
use caviar_hacker_grid.Base.Number.{is_space, skip_space}
use caviar_hacker_grid.Base.Text.{Bytes}
use caviar_hacker_grid.Handlers.Proxy.{trim}
use mathlib.Core.List.{reverse, reverse-append}

skip_space_all :
    (v : Bytes) (c : ℕ) → is_space c ≡ true → skip_space v ≡ [] → skip_space (v ++ c ∷ []) ≡ []
unfolding skip_space
skip_space_all [] c h e = ground arith
skip_space_all (d ∷ v) c h e = ground (arith, skip_space_all v c h)

skip_space_some :
    (v : Bytes) (c d : ℕ) (t : Bytes)
    → skip_space v ≡ d ∷ t
    → skip_space (v ++ c ∷ []) ≡ d ∷ (t ++ c ∷ [])
unfolding skip_space
skip_space_some [] c d t e = cc
skip_space_some (x ∷ v) c d t e = elim (Bool-cases (is_space x)) [
  | inl p ↦
      let f : skip_space v ≡ d ∷ t = ground arith in rw (skip_space, p) (skip_space_some v c d t f)
  | inr p ↦ let f : x ∷ v ≡ d ∷ t = ground arith in rw (skip_space, p) (ap (λ s. s ++ c ∷ []) f)
]

Bytes-cases : (s : Bytes) → (s ≡ []) ⊎ ((c : ℕ) × (t : Bytes) × (s ≡ c ∷ t))
Bytes-cases [] = inl refl
Bytes-cases (c ∷ t) = inr (c, t, refl)

-- A blank before the value, and one behind it, are trimmed.
pub trim-between :
    (a : ℕ) (v : Bytes) (c : ℕ)
    → is_space a ≡ true
    → is_space c ≡ true
    → trim (a ∷ (v ++ c ∷ [])) ≡ trim v
unfolding trim skip_space
trim-between a v c h k = elim (Bytes-cases (skip_space v)) [
  | inl e ↦ rw (trim, skip_space, h, skip_space_all v c k e, e) refl
  | inr (d, t, e) ↦
      let turned : reverse ((d ∷ t) ++ c ∷ []) ≡ c ∷ reverse (d ∷ t) =
        reverse-append (d ∷ t) (c ∷ []) in
      let skipped : skip_space (c ∷ reverse (d ∷ t)) ≡ skip_space (reverse (d ∷ t)) =
        rw (skip_space, k) refl in
      rw (trim, skip_space, h, skip_space_some v c d t e, e)
        (ap reverse (ap skip_space turned ∙ skipped))
]
