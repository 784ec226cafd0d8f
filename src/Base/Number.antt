-- ===== src/Base/Number.antt =====
-- `std::atoi` and `std::stoi` of the standard library, for a 32-bit `int`.
use Prim.Native.Nat.{ℕ, zero, suc, ◌+◌, ◌-◌, ◌*◌, ◌^◌}
use mathlib.Core.Path.{◌≡◌, refl}
use mathlib.Core.Bool.{Bool, true, false, ◌&&◌, ◌||◌}
use mathlib.Core.Option.{Option, none, some}
use mathlib.Core.List.{[], ◌∷◌}
use caviar_hacker_grid.Base.Tests.{ltb, leb, ◌==◌, if◌then◌else◌}
use caviar_hacker_grid.Base.Text.{Bytes, codes}

-- `negsuc n` is -(n + 1).
pub data ℤ : Type 0 where
  pos : ℕ → ℤ
  negsuc : ℕ → ℤ

abbrev pub negate : ℕ → ℤ
negate zero = pos zero
negate (suc n) = negsuc n

abbrev pub is_digit : ℕ → Bool
is_digit c = leb b'0' c && leb c b'9'

-- `isspace` in the C locale.
abbrev pub is_space : ℕ → Bool
is_space c = c == b' ' || (leb 9 c && leb c 13)

-- The value of the digits at the front, on top of those before them.
unfoldable pub digits_value : ℕ → Bytes → ℕ
digits_value value [] = value
digits_value value (c ∷ s) =
    let more = digits_value (10 * value + (c - b'0')) s in if is_digit c then more else value

-- The digits at the front, if there is one.
abbrev magnitude : Bytes → Option ℕ
magnitude [] = none
magnitude (c ∷ s) = if is_digit c then some (digits_value 0 (c ∷ s)) else none

-- A sign, and the value behind it: `true` for a minus.
abbrev pub signed : Bytes → Bool × Option ℕ
signed [] = (false, none)
signed (c ∷ s) =
    if c == b'-'
    then (true, magnitude s)
    else if c == b'+'
    then (false, magnitude s)
    else (false, magnitude (c ∷ s))

unfoldable pub skip_space : Bytes → Bytes
skip_space [] = []
skip_space (c ∷ s) = let rest = skip_space s in if is_space c then rest else c ∷ s

-- The number in the range of `int`.
abbrev in_int : Bool → ℕ → Option ℤ
in_int true n = if leb n (2 ^ 31) then some (negate n) else none
in_int false n = if ltb n (2 ^ 31) then some (pos n) else none

abbrev pub read_signed : Option ℤ → Bool × Option ℕ → Option ℤ
read_signed missing (minus, none) = missing
read_signed missing (minus, some n) = in_int minus n

-- `atoi`: 0 where there is no number; `none` is the undefined result of one that does not fit.
unfoldable pub atoi : Bytes → Option ℤ
unfolding digits_value skip_space
atoi s = read_signed (some (pos 0)) (signed (skip_space s))

-- `stoi`: `none` is an exception, where there is no number or it does not fit.
unfoldable pub stoi : Bytes → Option ℤ
unfolding digits_value skip_space
stoi s = read_signed none (signed (skip_space s))

-- `n > m` for a literal `m`.
abbrev pub exceeds : ℤ → ℕ → Bool
exceeds (pos n) m = ltb m n
exceeds (negsuc n) m = false

number_tests :
    (atoi (codes " 8080x") ≡ some (pos 8080))
    × (atoi (codes "-1") ≡ some (negsuc 0))
    × (atoi (codes "x") ≡ some (pos 0))
    × (stoi (codes "x") ≡ none)
    × (stoi (codes "2147483648") ≡ none)
unfolding atoi stoi
number_tests = (refl, refl, refl, refl, refl)
