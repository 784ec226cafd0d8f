-- ===== src/Base/Run.antt =====
-- How a call of the program ends: with a value, with a C++ exception, in undefined behaviour, or never.
use mathlib.Core.Path.{◌≡◌, refl}
use mathlib.Core.Option.{Option, none, some}

pub data Run {ℓ} (A : Type ℓ) : Type ℓ where
  done : A → Run A
  throws : Run A
  undefined : Run A
  diverges : Run A

infixl 5 ◌>>=◌
abbrev pub ◌>>=◌ {ℓ κ} : {A : Type ℓ} {B : Type κ} → Run A → (A → Run B) → Run B
done a >>= k = k a
throws >>= k = throws
undefined >>= k = undefined
diverges >>= k = diverges

-- `none` is an exception, or an undefined read.
abbrev pub or_throw {ℓ} : {A : Type ℓ} → Option A → Run A
or_throw none = throws
or_throw (some a) = done a

abbrev pub or_undefined {ℓ} : {A : Type ℓ} → Option A → Run A
or_undefined none = undefined
or_undefined (some a) = done a

-- Inversion of a bind that has a value.
pub >>=-eq-done {ℓ κ} :
    {A : Type ℓ} {B : Type κ} (m : Run A) (k : A → Run B) {b : B}
    → (m >>= k) ≡ done b
    → (a : A) × (m ≡ done a) × (k a ≡ done b)
>>=-eq-done (done a) k h = (a, refl, h)
>>=-eq-done throws k h = cc
>>=-eq-done undefined k h = cc
>>=-eq-done diverges k h = cc
