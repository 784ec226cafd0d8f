-- ===== src/Http/Decimal/RoundTrip.antt =====
-- Reading the digits that std::to_string writes.
use caviar_hacker_grid.Base.{
  ℕ, zero, suc, ◌+◌, ◌*◌, ◌/◌, ◌%◌, ◌<◌, ◌≡◌, ◌∙◌, ap, [], ◌∷◌, ltb, arith, Bool-cases, inl, inr,
}
use caviar_hacker_grid.Base.Number.{digits_value}
use caviar_hacker_grid.Base.Text.{Bytes}
use caviar_hacker_grid.Http.Decimal.{digits, to_decimal}

digits_value-digit :
    (acc d : ℕ) (found : Bytes)
    → d < 10
    → digits_value acc ((b'0' + d) ∷ found) ≡ digits_value (10 * acc + d) found
unfolding digits_value
digits_value-digit acc d found h = ground arith

digits_value-digits :
    (f n : ℕ) (found : Bytes) → n < f → digits_value 0 (digits f n found) ≡ digits_value n found
unfolding digits
digits_value-digits zero n found h = ground arith
digits_value-digits (suc f) n found h = elim (Bool-cases (ltb n 10)) [
  | inl e ↦
      rw (digits, e)
        (digits_value-digit 0 n found (ground arith) ∙ ap (λ m. digits_value m found) (omega arith))
  | inr e ↦
      rw (digits, e)
        (digits_value-digits f (n / 10) ((b'0' + n % 10) ∷ found) (ground arith)
          ∙ digits_value-digit (n / 10) (n % 10) found (omega arith)
          ∙ ap (λ m. digits_value m found) (omega arith))
]

pub digits_value-to_decimal : (n : ℕ) → digits_value 0 (to_decimal n) ≡ n
unfolding to_decimal digits_value
digits_value-to_decimal n = digits_value-digits (suc n) n [] (omega arith)
