-- ===== src/Handlers/Proxy/Stream.antt =====
-- The std::istream that ProxyHandler reads a reply from, and `ReadNextHeader`.
pub mod Reading
use caviar_hacker_grid.Base.{
  ℕ, suc, ◌+◌, ◌-◌, ◌^◌, ◌%◌, Bool, true, false, ◌&&◌, [], ◌∷◌, ◌++◌, Option, none, some,
  if◌then◌else◌, ltb, ◌==◌, take, drop,
}
use caviar_hacker_grid.Base.Number.{is_space, is_digit, skip_space, digits_value}
use caviar_hacker_grid.Base.Text.{Bytes, codes, equal, find}
use caviar_hacker_grid.Handlers.Proxy.{trim}

-- The bytes left in the buffer, and whether the stream is still good. A stream that has seen the
-- end of the buffer, or failed, reads nothing more.
pub record Stream : Type 0 where
  pub good : Bool
  pub bytes : Bytes

-- The bytes before the first blank, and those from it on.
abbrev pub span_word : Bytes → Bytes → Bytes × Bytes
span_word word [] = (word, [])
span_word word (c ∷ s) = elim (is_space c) [
  | true ↦ (word, c ∷ s)
  | false ↦ span_word (word ++ c ∷ []) s
]

abbrev pub has_more : Bytes → Bool
has_more [] = false
has_more (_ ∷ _) = true

-- `stream >> http_version`: a word. The stream is good behind it if a byte follows.
unfoldable pub read_word : Stream → Stream
unfolding skip_space
read_word s =
    let rest = (span_word [] (skip_space s.bytes)).1 in
    record { good = s.good && has_more rest; bytes = rest }

-- The bytes behind the digits at the front.
unfoldable pub drop_digits : Bytes → Bytes
drop_digits [] = []
drop_digits (c ∷ s) = let rest = drop_digits s in if is_digit c then rest else c ∷ s

abbrev pub starts_with_digit : Bytes → Bool
starts_with_digit [] = false
starts_with_digit (c ∷ _) = is_digit c

-- The digits of an `unsigned int` behind its sign. One that does not fit is the greatest number,
-- and a failure; so is 0 where there is no digit.
abbrev pub read_digits : (ℕ → ℕ) → Bytes → ℕ × Stream
read_digits sign s =
    let value = digits_value 0 s in
    let rest = drop_digits s in
    if starts_with_digit s
    then (if ltb value (2 ^ 32)
        then (sign value, record { good = has_more rest; bytes = rest })
        else (2 ^ 32 - 1, record { good = false; bytes = rest }))
    else (0, record { good = false; bytes = s })

abbrev pub at_number : Bytes → Option (ℕ × Stream)
at_number [] = none
at_number (c ∷ s) =
    if c == b'-'
    then some (read_digits (λ n. (2 ^ 32 - n) % 2 ^ 32) s)
    else if c == b'+'
    then some (read_digits (λ n. n) s)
    else some (read_digits (λ n. n) (c ∷ s))

-- `stream >> status_code`; `none` where the variable gets no value.
unfoldable pub read_unsigned : Stream → Option (ℕ × Stream)
unfolding skip_space digits_value drop_digits
read_unsigned s = if s.good then at_number (skip_space s.bytes) else none

-- `std::getline(stream, line, delimiter)`; `none` where it fails.
abbrev pub getline : ℕ → Stream → Option (Bytes × Stream)
getline delimiter s = elim (s.good && has_more s.bytes) [
  | false ↦ none
  | true ↦ elim (find (delimiter ∷ []) s.bytes) [
    | none ↦ some (s.bytes, record { good = false; bytes = [] })
    | some i ↦ some (take i s.bytes, record { good = true; bytes = drop (suc i) s.bytes })
  ]
]

-- `getline` into the status message, and `ignore(1)`: what is left of the stream.
unfoldable pub skip_status_message : Stream → Stream
unfolding find
skip_status_message s = elim (getline b'\r' s) [
  | none ↦ record { good = false; bytes = s.bytes }
  | some (message, s') ↦
      if s'.good then record { good = has_more s'.bytes; bytes = drop 1 s'.bytes } else s'
]

-- A line with no colon is a header with an empty name and value.
abbrev pub header_of : Bytes → Bytes × Bytes
header_of header = elim (find (codes ":") header) [
  | none ↦ ([], [])
  | some colon_pos ↦ (take colon_pos header, trim (drop (colon_pos + 1) header))
]

-- What `ReadNextHeader` returns, with the stream behind it: `false`, or `true` with a header.
pub data NextHeader : Type 0 where
  no_header : Stream → NextHeader
  next_header : (key value : Bytes) → Stream → NextHeader

unfoldable pub read_next_header : Stream → NextHeader
unfolding find equal trim
read_next_header s = elim (getline b'\n' s) [
  | none ↦ no_header (record { good = false; bytes = s.bytes })
  | some (header, s') ↦
      let (key, value) = header_of header in
      if equal header (codes "\r") then no_header s' else next_header key value s'
]
