-- ===== src/Handlers/Proxy/Stream/Reading.antt =====
-- The stream operations of ProxyHandler on the head of a reply.
use caviar_hacker_grid.Base.{
  ℕ, zero, suc, ◌+◌, ◌-◌, ◌/◌, ◌%◌, ◌^◌, ◌<◌, true, false, [], ◌∷◌, ◌++◌, some, ◌≡◌, refl, sym,
  arith, ◌==◌, ltb, length, drop, All, take-length_append, Bool-cases, inl, inr, ◌*◌, subst,
}
use caviar_hacker_grid.Base.Number.{is_digit, digits_value, skip_space}
use caviar_hacker_grid.Base.Text.{Bytes, None, codes, find, equal, starts_with}
use caviar_hacker_grid.Handlers.Proxy.{trim}
use caviar_hacker_grid.Handlers.Proxy.Stream.{
  Stream, read_word, read_unsigned, drop_digits, getline, skip_status_message, header_of,
  read_next_header, next_header, no_header, has_more, at_number,
}
use caviar_hacker_grid.Http.Decimal.{digits, to_decimal}
use caviar_hacker_grid.Http.Decimal.RoundTrip.{digits_value-to_decimal}

abbrev pub stream : Bytes → Stream
stream s = record { good = true; bytes = s }

-- Digits, up to a byte that is none.
abbrev pub Digits : Bytes → Type 0
Digits = All (λ c. is_digit c ≡ true)

digits-Digits : (f n : ℕ) (found : Bytes) → Digits found → Digits (digits f n found)
unfolding digits
digits-Digits zero n found h = h
digits-Digits (suc f) n found h = elim (Bool-cases (ltb n 10)) [
  | inl e ↦ rw (digits, e) (ground arith, h)
  | inr e ↦ rw (digits, e) (digits-Digits f (n / 10) ((b'0' + n % 10) ∷ found) (ground arith, h))
]

digits-cons :
    (f n c : ℕ) (found : Bytes) → (d : ℕ) × (ds : Bytes) × (digits f n (c ∷ found) ≡ d ∷ ds)
unfolding digits
digits-cons zero n c found = (c, found, refl)
digits-cons (suc f) n c found = elim (Bool-cases (ltb n 10)) [
  | inl e ↦ (b'0' + n, c ∷ found, rw (digits, e) refl)
  | inr e ↦ rw (digits, e) (digits-cons f (n / 10) (b'0' + n % 10) (c ∷ found))
]

pub to_decimal-cons : (n : ℕ) → (d : ℕ) × (ds : Bytes) × (to_decimal n ≡ d ∷ ds)
unfolding to_decimal digits
to_decimal-cons n = elim (Bool-cases (ltb n 10)) [
  | inl e ↦ (b'0' + n, [], rw (to_decimal, digits, e) refl)
  | inr e ↦ rw (to_decimal, digits, e) (digits-cons n (n / 10) (b'0' + n % 10) [])
]

pub to_decimal-Digits : (n : ℕ) → Digits (to_decimal n)
unfolding to_decimal
to_decimal-Digits n = digits-Digits (suc n) n [] tt

digits_value-Digits :
    (v : ℕ) (ds t : Bytes) → Digits ds → digits_value v (ds ++ b' ' ∷ t) ≡ digits_value v ds
unfolding digits_value
digits_value-Digits v [] t h = ground arith
digits_value-Digits v (d ∷ ds) t (p, h) =
    ground (arith, digits_value-Digits (10 * v + (d - b'0')) ds t h)

drop_digits-Digits : (ds t : Bytes) → Digits ds → drop_digits (ds ++ b' ' ∷ t) ≡ b' ' ∷ t
unfolding drop_digits
drop_digits-Digits [] t h = ground arith
drop_digits-Digits (d ∷ ds) t (p, h) = ground (arith, drop_digits-Digits ds t h)

at_number_lem :
    (code d : ℕ) (ds t : Bytes)
    → is_digit d ≡ true
    → Digits ds
    → digits_value 0 (d ∷ ds) ≡ code
    → code < 2 ^ 32
    → at_number (skip_space ((d ∷ ds) ++ b' ' ∷ t)) ≡ some (code, stream (b' ' ∷ t))
unfolding skip_space
at_number_lem code d ds t p a e h =
    ground (arith, digits_value-Digits 0 (d ∷ ds) t (p, a), drop_digits-Digits (d ∷ ds) t (p, a))

-- The status code.
pub read_unsigned_lem :
    (code : ℕ) (t : Bytes)
    → code < 2 ^ 32
    → read_unsigned (stream (b' ' ∷ (to_decimal code ++ b' ' ∷ t))) ≡ some (code, stream (b' ' ∷ t))
unfolding read_unsigned skip_space
read_unsigned_lem code t h =
    let (d, ds, e) = to_decimal-cons code in
    let all : Digits (d ∷ ds) = subst Digits e (to_decimal-Digits code) in
    let value : digits_value 0 (d ∷ ds) ≡ code =
      subst (λ s. digits_value 0 s ≡ code) e (digits_value-to_decimal code) in
    subst (λ s. at_number (skip_space (s ++ b' ' ∷ t)) ≡ some (code, stream (b' ' ∷ t))) (sym e)
      (at_number_lem code d ds t all.0 all.1 value h)

find_byte :
    (d : ℕ) (a s : Bytes) → None (λ c. c == d) a → find (d ∷ []) (a ++ d ∷ s) ≡ some (length a)
unfolding find starts_with
find_byte d [] s n = ground arith
find_byte d (c ∷ a) s (p, n) = ground (arith, find_byte d a s n)

drop_one : (d : ℕ) (a s : Bytes) → drop (suc (length a)) (a ++ d ∷ s) ≡ s
drop_one d [] s = refl
drop_one d (c ∷ a) s = drop_one d a s

has_more-append : (d : ℕ) (a s : Bytes) → has_more (a ++ d ∷ s) ≡ true
has_more-append d [] s = refl
has_more-append d (c ∷ a) s = refl

pub getline_lem :
    (d : ℕ) (a s : Bytes)
    → None (λ c. c == d) a
    → getline d (stream (a ++ d ∷ s)) ≡ some (a, stream s)
getline_lem d a s n =
    rw
      (
        getline,
        has_more-append d a s,
        find_byte d a s n,
        take-length_append a (d ∷ s),
        drop_one d a s,
      )
      refl

pub read_word_lem :
    (s : Bytes) → read_word (stream (codes "HTTP/1.1" ++ b' ' ∷ s)) ≡ stream (b' ' ∷ s)
unfolding read_word skip_space
read_word_lem s = refl

-- The rest of the status line.
pub skip_status_message_lem :
    (phrase s : Bytes)
    → None (λ c. c == b'\r') phrase
    → skip_status_message (stream (b' ' ∷ (phrase ++ b'\r' ∷ b'\n' ∷ s))) ≡ stream s
unfolding skip_status_message
skip_status_message_lem phrase s n =
    rw (skip_status_message, getline_lem b'\r' (b' ' ∷ phrase) (b'\n' ∷ s) (refl, n)) refl

-- The blank line.
pub read_next_header_blank :
    (s : Bytes) → read_next_header (stream (b'\r' ∷ b'\n' ∷ s)) ≡ no_header (stream s)
unfolding read_next_header equal find starts_with
read_next_header_blank s = refl

drop_name : (name s : Bytes) → drop (length name + 1) (name ++ b':' ∷ s) ≡ s
drop_name [] s = refl
drop_name (c ∷ name) s = ground (arith, drop_name name s)

header_of_lem :
    (name s : Bytes) → None (λ c. c == b':') name → header_of (name ++ b':' ∷ s) ≡ (name, trim s)
header_of_lem name s n =
    rw (header_of, find_byte b':' name s n, take-length_append name (b':' ∷ s), drop_name name s)
      refl

not_blank :
    (name s : Bytes) → None (λ c. c == b'\r') name → equal (name ++ b':' ∷ s) (codes "\r") ≡ false
unfolding equal
not_blank [] s n = refl
not_blank (c ∷ name) s n = ground arith

-- A header line.
pub read_next_header_line :
    (name value s : Bytes)
    → None (λ c. c == b':') name
    → None (λ c. c == b'\r') name
    → None (λ c. c == b'\n') (name ++ b':' ∷ (value ++ b'\r' ∷ []))
    → read_next_header (stream ((name ++ b':' ∷ (value ++ b'\r' ∷ [])) ++ b'\n' ∷ s))
      ≡ next_header name (trim (value ++ b'\r' ∷ [])) (stream s)
unfolding read_next_header
read_next_header_line name value s n m l =
    let line = name ++ b':' ∷ (value ++ b'\r' ∷ []) in
    rw
      (
        read_next_header,
        getline_lem b'\n' line s l,
        not_blank name (value ++ b'\r' ∷ []) m,
        header_of_lem name (value ++ b'\r' ∷ []) n,
      )
      refl
