-- ===== src/Base/StdMap/Keys.antt =====
-- The orders of `int` and of std::string.
use Prim.Native.Nat.{ℕ, compare, Ordering}
use mathlib.Core.Path.{◌≡◌}
use mathlib.Core.Logic.{◌↔◌}
use mathlib.Core.List.{[], ◌∷◌}
use native.Mathlib.Omega.{arith}
use mathlib.Core.Bool.{Bool, true, false}
use caviar_hacker_grid.Base.Tests.{ltb}
use caviar_hacker_grid.Base.Text.{Bytes}
use caviar_hacker_grid.Base.StdMap.{Order, Bool}

-- An `int` is kept as its 32 bits: it is negative from the half of the range on.
abbrev pub is_negative : ℕ → Bool
is_negative n = ltb 2147483647 n

-- Negative before not negative, and by the bits within each half.
abbrev pub int_compare : ℕ → ℕ → Ordering
int_compare a b = elim (is_negative a) [
  | true ↦ elim (is_negative b) [ true ↦ compare a b | false ↦ Ordering.lt ]
  | false ↦ elim (is_negative b) [ true ↦ Ordering.gt | false ↦ compare a b ]
]

pub int_eq_iff : (a b : ℕ) → (int_compare a b ≡ Ordering.eq) ↔ (a ≡ b)
int_eq_iff a b = ground arith

pub int_lt_trans :
    (a b c : ℕ)
    → int_compare a b ≡ Ordering.lt
    → int_compare b c ≡ Ordering.lt
    → int_compare a c ≡ Ordering.lt
int_lt_trans a b c h k = ground arith

pub int_gt_iff : (a b : ℕ) → (int_compare a b ≡ Ordering.gt) ↔ (int_compare b a ≡ Ordering.lt)
int_gt_iff a b = ground arith

instance abbrev pub int_order : Order ℕ
int_order = record {
  order = int_compare;
  eq_iff = int_eq_iff;
  lt_trans = int_lt_trans;
  gt_iff = int_gt_iff;
}

-- Lexicographic, by byte values.
abbrev pub text_compare : Bytes → Bytes → Ordering
text_compare [] [] = Ordering.eq
text_compare [] (_ ∷ _) = Ordering.lt
text_compare (_ ∷ _) [] = Ordering.gt
text_compare (x ∷ a) (y ∷ b) = elim (compare x y) [
  | Ordering.lt ↦ Ordering.lt
  | Ordering.eq ↦ text_compare a b
  | Ordering.gt ↦ Ordering.gt
]

pub text_eq_iff : (a b : Bytes) → (text_compare a b ≡ Ordering.eq) ↔ (a ≡ b)
text_eq_iff (x ∷ a) (y ∷ b) = ground (arith, text_eq_iff a b)
text_eq_iff _ _ = ground arith

pub text_lt_trans :
    (a b c : Bytes)
    → text_compare a b ≡ Ordering.lt
    → text_compare b c ≡ Ordering.lt
    → text_compare a c ≡ Ordering.lt
text_lt_trans (x ∷ a) (y ∷ b) (z ∷ c) h k = ground (arith, text_lt_trans a b c)
text_lt_trans _ _ _ h k = ground arith

pub text_gt_iff :
    (a b : Bytes) → (text_compare a b ≡ Ordering.gt) ↔ (text_compare b a ≡ Ordering.lt)
text_gt_iff (x ∷ a) (y ∷ b) = ground (arith, text_gt_iff a b)
text_gt_iff _ _ = ground arith

instance abbrev pub text_order : Order Bytes
text_order = record {
  order = text_compare;
  eq_iff = text_eq_iff;
  lt_trans = text_lt_trans;
  gt_iff = text_gt_iff;
}
