-- ===== src/Http/Response/Codes.antt =====
-- The status code in the text of a response.
use caviar_hacker_grid.Base.{
  ℕ, zero, suc, ◌+◌, ◌/◌, ◌%◌, Bool, true, [], ◌∷◌, ◌++◌, some, ◌≡◌, ◌∙◌, refl, ap, sym, arith, ltb,
  ◌==◌, Bool-cases, inl, inr, append_assoc, drop, length, ◌||◌, ◌≢◌, ◌<◌, ◌-◌, subst,
}
use caviar_hacker_grid.Base.Number.{digits_value}
use caviar_hacker_grid.Base.Text.{
  Bytes, codes, None, starts_with, starts_with-append, starts_with_split, equal, equal_iff,
  None-weaken,
}
use caviar_hacker_grid.Http.Decimal.{digits, to_decimal, int_decimal}
use caviar_hacker_grid.Http.Decimal.RoundTrip.{digits_value-to_decimal}
use caviar_hacker_grid.Http.Response.{Response, to_string, status_line, header_lines, line_break}

-- What stands in front of the reason phrase.
abbrev pub reply_start : ℕ → Bytes
reply_start code = codes "HTTP/1.1 " ++ (int_decimal code ++ codes " ")

-- Whether a text begins with the status line of a code.
abbrev pub has_code : ℕ → Bytes → Bool
has_code code text = starts_with (reply_start code) text

pub to_string-has_code :
    (r : Response) {text : Bytes} {code : ℕ}
    → to_string r ≡ some text
    → r.status_code ≡ some code
    → has_code code text ≡ true
unfolding to_string status_line
to_string-has_code r {text} {code} e f =
    let rest = r.reason_phrase ++ line_break in
    let tail = header_lines r.http_headers ++ (line_break ++ r.body) in
    let printed : to_string r ≡ some (reply_start code ++ (rest ++ tail)) =
      rw (to_string, f) (simp append_assoc) in
    let same : text ≡ reply_start code ++ (rest ++ tail) = cc in
    ap (has_code code) same ∙ starts_with-append (reply_start code) (rest ++ tail)

abbrev is_space : ℕ → Bool
is_space c = c == b' '

-- The bytes that are in no number: a space and a sign.
abbrev is_no_digit : ℕ → Bool
is_no_digit c = c == b' ' || c == b'-'

digits-None :
    (f n : ℕ) (found : Bytes) → None is_no_digit found → None is_no_digit (digits f n found)
unfolding digits
digits-None zero n found h = h
digits-None (suc f) n found h = elim (Bool-cases (ltb n 10)) [
  | inl e ↦ rw (digits, e) (ground arith, h)
  | inr e ↦ rw (digits, e) (digits-None f (n / 10) ((b'0' + n % 10) ∷ found) (ground arith, h))
]

to_decimal-None : (n : ℕ) → None is_no_digit (to_decimal n)
unfolding to_decimal
to_decimal-None n = digits-None (suc n) n [] tt

to_decimal-None_space : (n : ℕ) → None is_space (to_decimal n)
to_decimal-None_space n =
    None-weaken is_no_digit is_space (to_decimal n) (λ c p. ground arith) (to_decimal-None n)

int_decimal-None : (n : ℕ) → None is_space (int_decimal n)
unfolding int_decimal
int_decimal-None n = elim (Bool-cases (ltb 2147483647 n)) [
  | inl e ↦ rw (int_decimal, e) (refl, to_decimal-None_space (4294967296 - n))
  | inr e ↦ rw (int_decimal, e) (to_decimal-None_space n)
]

to_decimal_injective : (k n : ℕ) → to_decimal k ≡ to_decimal n → k ≡ n
to_decimal_injective k n e =
    sym (digits_value-to_decimal k) ∙ ap (digits_value 0) e ∙ digits_value-to_decimal n

-- No number begins with a sign.
to_decimal_no_sign : (n : ℕ) (s : Bytes) → b'-' ∷ s ≢ to_decimal n
to_decimal_no_sign n s e = ground (arith, subst (None is_no_digit) (sym e) (to_decimal-None n))

-- Two numbers with a sign are the same number without it.
unsigned_same : (a b : ℕ) → b'-' ∷ to_decimal a ≡ b'-' ∷ to_decimal b → a ≡ b
unsigned_same a b e = to_decimal_injective a b (ap (drop 1) e)

int_decimal_injective : (k n : ℕ) → k < 4294967296 → int_decimal k ≡ int_decimal n → k ≡ n
unfolding int_decimal
int_decimal_injective k n h e = elim (Bool-cases (ltb 2147483647 k)) [
  | inl p ↦ elim (Bool-cases (ltb 2147483647 n)) [
    | inl q ↦
        let same : b'-' ∷ to_decimal (4294967296 - k) ≡ b'-' ∷ to_decimal (4294967296 - n) =
          sym (rw (int_decimal, p) refl) ∙ e ∙ rw (int_decimal, q) refl in
        ground (arith, unsigned_same (4294967296 - k) (4294967296 - n) same)
    | inr q ↦
        let same : b'-' ∷ to_decimal (4294967296 - k) ≡ to_decimal n =
          sym (rw (int_decimal, p) refl) ∙ e ∙ rw (int_decimal, q) refl in
        absurd (to_decimal_no_sign n (to_decimal (4294967296 - k)) same)
  ]
  | inr p ↦ elim (Bool-cases (ltb 2147483647 n)) [
    | inl q ↦
        let same : b'-' ∷ to_decimal (4294967296 - n) ≡ to_decimal k =
          sym (rw (int_decimal, q) refl) ∙ sym e ∙ rw (int_decimal, p) refl in
        absurd (to_decimal_no_sign k (to_decimal (4294967296 - n)) same)
    | inr q ↦
        to_decimal_injective k n (sym (rw (int_decimal, p) refl) ∙ e ∙ rw (int_decimal, q) refl)
  ]
]

starts_with-cancel : (p q s : Bytes) → starts_with (p ++ q) (p ++ s) ≡ starts_with q s
unfolding starts_with
starts_with-cancel [] q s = refl
starts_with-cancel (x ∷ p) q s = ground (arith, starts_with-cancel p q s)

-- A word with a space behind it begins no text but one with that word in front of a space.
starts_with-word :
    (a b rest : Bytes)
    → None is_space a
    → None is_space b
    → starts_with (a ++ b' ' ∷ []) (b ++ b' ' ∷ rest) ≡ equal a b
unfolding starts_with equal
starts_with-word [] [] rest h k = refl
starts_with-word [] (y ∷ b) rest h (k, l) = ground arith
starts_with-word (x ∷ a) [] rest (h, i) k = ground arith
starts_with-word (x ∷ a) (y ∷ b) rest (h, i) (k, l) = ground (arith, starts_with-word a b rest i l)

-- A text begins with the status line of one `int` only.
pub has_code_unique :
    (k code : ℕ) (text : Bytes)
    → k < 4294967296
    → has_code code text ≡ true
    → has_code k text ≡ (k == code)
has_code_unique k code text small h =
    let rest = drop (length (reply_start code)) text in
    let split : text ≡ codes "HTTP/1.1 " ++ (int_decimal code ++ b' ' ∷ rest) =
      starts_with_split (reply_start code) text h
      ∙ ap (λ s. codes "HTTP/1.1 " ++ s) (append_assoc (int_decimal code) (codes " ") rest) in
    ap (has_code k) split
    ∙ starts_with-cancel (codes "HTTP/1.1 ") (int_decimal k ++ codes " ")
        (int_decimal code ++ b' ' ∷ rest)
    ∙ starts_with-word (int_decimal k) (int_decimal code) rest (int_decimal-None k)
        (int_decimal-None code)
    ∙ ground (
      arith,
      equal_iff (int_decimal k) (int_decimal code),
      int_decimal_injective k code small,
      λ (q : k ≡ code). ap int_decimal q,
    )
