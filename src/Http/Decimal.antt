-- ===== src/Http/Decimal.antt =====
-- std::to_string of a number that is not negative, its decimal digits, and of an `int`.
pub mod RoundTrip
use caviar_hacker_grid.Base.{
  ℕ, zero, suc, ◌+◌, ◌-◌, ◌/◌, ◌%◌, ◌≡◌, refl, [], ◌∷◌, ltb, if◌then◌else◌,
}
use caviar_hacker_grid.Base.Text.{Bytes, codes}

-- The digits in front of those found, in at most the given number of rounds.
unfoldable pub digits : ℕ → ℕ → Bytes → Bytes
digits zero n found = found
digits (suc f) n found =
    let more = digits f (n / 10) ((b'0' + n % 10) ∷ found) in
    if ltb n 10 then (b'0' + n) ∷ found else more

-- A number has no more digits than its value, and one.
unfoldable pub to_decimal : ℕ → Bytes
unfolding digits
to_decimal n = digits (suc n) n []

to_decimal_404 : to_decimal 404 ≡ codes "404"
unfolding to_decimal
to_decimal_404 = refl

-- `std::to_string` of an `int` that is given by its 32 bits.
unfoldable pub int_decimal : ℕ → Bytes
unfolding to_decimal
int_decimal n = if ltb 2147483647 n then b'-' ∷ to_decimal (4294967296 - n) else to_decimal n

int_decimal_negative : int_decimal 4294967295 ≡ codes "-1"
unfolding int_decimal
int_decimal_negative = refl
