-- ===== src/Server/EventLoop/Phases.antt =====
-- Counting the sessions in a phase.
use caviar_hacker_grid.Base.{
  Bool-cases, inl, inr, ℕ, zero, suc, ◌+◌, List, [], ◌∷◌, ◌++◌, some, ◌≡◌, ◌≢◌, refl, arith, length,
  true, ap,
}
use caviar_hacker_grid.Server.EventLoop.{
  Phase, phase_of, set_phase, one_if, same, count, accepting, deleted, reading, blocked, closed,
  left_open,
}

pub count-append : (p : Phase) (ps qs : List Phase) → count p (ps ++ qs) ≡ count p ps + count p qs
unfolding count
count-append p [] qs = omega arith
count-append p (r ∷ ps) qs = omega (arith, count-append p ps qs)

-- A session that changes its phase is taken from one count and added to another.
pub count-set_phase :
    (p q r : Phase) (i : ℕ) (ps : List Phase)
    → phase_of i ps ≡ some r
    → count p (set_phase i q ps) + one_if (same p r) ≡ count p ps + one_if (same p q)
unfolding count
count-set_phase p q r i [] e = cc
count-set_phase p q r zero (s ∷ ps) e = let f : s ≡ r = cc in rw f (omega arith)
count-set_phase p q r (suc i) (s ∷ ps) e = omega (arith, count-set_phase p q r i ps e)

pub length-set_phase : (i : ℕ) (q : Phase) (ps : List Phase) → length (set_phase i q ps) ≡ length ps
length-set_phase i q [] = refl
length-set_phase zero q (p ∷ ps) = refl
length-set_phase (suc i) q (p ∷ ps) = omega (arith, length-set_phase i q ps)

pub phase_of-set_phase :
    (i : ℕ) (q r : Phase) (ps : List Phase)
    → phase_of i ps ≡ some r
    → phase_of i (set_phase i q ps) ≡ some q
phase_of-set_phase i q r [] e = cc
phase_of-set_phase zero q r (p ∷ ps) e = refl
phase_of-set_phase (suc i) q r (p ∷ ps) e = phase_of-set_phase i q r ps e

-- A session in a phase is counted.
pub count-phase_of :
    (p : Phase) (i : ℕ) (ps : List Phase)
    → same p p ≡ true
    → phase_of i ps ≡ some p
    → count p ps ≢ 0
unfolding count
count-phase_of p i [] s e = cc
count-phase_of p zero (q ∷ ps) s e = let f : q ≡ p = cc in rw (f, s) (λ h. omega (arith, h))
count-phase_of p (suc i) (q ∷ ps) s e = λ h. count-phase_of p i ps s e (omega (arith, h))

same_accepting : (p : Phase) → same accepting p ≡ true → accepting ≡ p
same_accepting accepting e = refl
same_accepting reading e = cc
same_accepting blocked e = cc
same_accepting (closed _) e = cc
same_accepting left_open e = cc
same_accepting deleted e = cc

-- A phase that is counted has a session in it.
pub phase_of-count :
    (ps : List Phase) → count accepting ps ≢ 0 → (i : ℕ) × (phase_of i ps ≡ some accepting)
unfolding count
phase_of-count [] h = absurd (h refl)
phase_of-count (p ∷ ps) h = elim (Bool-cases (same accepting p)) [
  | inl e ↦ (0, rw (same_accepting p e) refl)
  | inr e ↦ let (i, f) = phase_of-count ps (λ k. h (omega (arith, k, ap one_if e))) in (suc i, f)
]

pub phase_of-append :
    (i : ℕ) (p : Phase) (ps qs : List Phase)
    → phase_of i ps ≡ some p
    → phase_of i (ps ++ qs) ≡ some p
phase_of-append i p [] qs e = cc
phase_of-append zero p (q ∷ ps) qs e = e
phase_of-append (suc i) p (q ∷ ps) qs e = phase_of-append i p ps qs e
