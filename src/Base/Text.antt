-- ===== src/Base/Text.antt =====
-- std::string as a list of byte values: the operations that the program calls on it.
pub mod Search
use Prim.Native.Char.{code}
use Prim.Native.String.{String}
use Prim.Native.Nat.{ℕ, suc, ◌+◌}
use mathlib.Core.Path.{◌≡◌, refl}
use mathlib.Core.Logic.{◌↔◌}
use mathlib.Core.Bool.{Bool, true, false, ◌&&◌}
use mathlib.Core.Option
use mathlib.Core.Option.{Option, none, some}
use mathlib.Core.List.{List, [], ◌∷◌, ◌++◌}
use native.Mathlib.Omega.{arith}
use caviar_hacker_grid.Base.Tests.{leb, ◌==◌, if◌then◌else◌}
use caviar_hacker_grid.Base.Lists.{length, take, drop, length-append, drop-length_append}

abbrev pub Bytes : Type 0
Bytes = List ℕ

-- The bytes of an ASCII literal.
abbrev pub codes : String → Bytes
codes String.[] = []
codes (String.◌∷◌ c s) = code c ∷ codes s

-- `a == b`, `a.compare(b) == 0`.
unfoldable pub equal : Bytes → Bytes → Bool
equal [] [] = true
equal (x ∷ xs) (y ∷ ys) = x == y && equal xs ys
equal _ _ = false

pub equal_iff : (s t : Bytes) → (equal s t ≡ true) ↔ (s ≡ t)
unfolding equal
equal_iff [] [] = ground arith
equal_iff [] (d ∷ t) = ground arith
equal_iff (c ∷ s) [] = ground arith
equal_iff (c ∷ s) (d ∷ t) = ground (equal_iff s t, arith)

pub equal_refl : (a : Bytes) → equal a a ≡ true
equal_refl a = (equal_iff a a).1 refl

-- Whether `p` stands at the front of the text.
unfoldable pub starts_with : Bytes → Bytes → Bool
starts_with [] s = true
starts_with (x ∷ p) [] = false
starts_with (x ∷ p) (y ∷ s) = x == y && starts_with p s

pub starts_with-append : (p s : Bytes) → starts_with p (p ++ s) ≡ true
unfolding starts_with
starts_with-append [] s = refl
starts_with-append (x ∷ p) s = ground (arith, starts_with-append p s)

-- The text is the prefix and what stands behind it.
pub starts_with_split : (p s : Bytes) → starts_with p s ≡ true → s ≡ p ++ drop (length p) s
unfolding starts_with
starts_with_split [] s h = refl
starts_with_split (x ∷ p) [] h = cc
starts_with_split (x ∷ p) (y ∷ s) h = ground (arith, starts_with_split p s)

-- `s.find(p)`: the least position at which `p` stands; `none` is `std::string::npos`.
unfoldable pub find : Bytes → Bytes → Option ℕ
unfolding starts_with
find p [] = if starts_with p [] then some 0 else none
find p (c ∷ s) = if starts_with p (c ∷ s) then some 0 else Option.map suc (find p s)

-- `s.find_last_of(".")` of one byte `b`: the greatest position at which `b` stands.
unfoldable pub find_last_of : ℕ → Bytes → Option ℕ
find_last_of b [] = none
find_last_of b (c ∷ s) = elim (find_last_of b s) [
  | some i ↦ some (suc i)
  | none ↦ if c == b then some 0 else none
]

-- `s.substr(i)`; `none` is the exception `std::out_of_range`.
unfoldable pub substr : Bytes → ℕ → Option Bytes
substr s i = if leb i (length s) then some (drop i s) else none

-- `s.substr(i, n)`.
unfoldable pub substr_len : Bytes → ℕ → ℕ → Option Bytes
substr_len s i n = if leb i (length s) then some (take n (drop i s)) else none

pub substr-length_append : (p s : Bytes) → substr (p ++ s) (length p) ≡ some s
unfolding substr
substr-length_append p s = ground (arith, length-append p s, drop-length_append p s)

-- `::tolower` in the C locale.
unfoldable pub to_lower : ℕ → ℕ
to_lower c = if leb b'A' c && leb c b'Z' then c + 32 else c

-- What a C string shows of a text: the bytes before the first NUL.
unfoldable pub c_str : Bytes → Bytes
c_str [] = []
c_str (c ∷ s) = if c == 0 then [] else c ∷ c_str s

-- No byte of the text passes the test.
abbrev pub None : (ℕ → Bool) → Bytes → Type 0
None p [] = Unit
None p (c ∷ cs) = (p c ≡ false) × None p cs

pub None-append : (p : ℕ → Bool) (a b : Bytes) → None p a → None p b → None p (a ++ b)
None-append p [] b h k = k
None-append p (c ∷ a) b (q, h) k = (q, None-append p a b h k)

pub None-weaken :
    (p q : ℕ → Bool) (s : Bytes) → ((c : ℕ) → p c ≡ false → q c ≡ false) → None p s → None q s
None-weaken p q [] f n = tt
None-weaken p q (c ∷ s) f (h, n) = (f c h, None-weaken p q s f n)
