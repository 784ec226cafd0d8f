-- ===== src/Config/Grammar/Fronts.antt =====
-- What stands at the front of a text, and the token that `ParseToken` reads there.
use caviar_hacker_grid.Base.{
  ℕ, Bool, true, false, ◌||◌, [], ◌∷◌, ◌++◌, ◌==◌, ◌≡◌, ◌⊎◌, inl, inr, refl, ap, sym, ◌∙◌, arith,
  append-nil, append_assoc, Bool-cases,
}
use caviar_hacker_grid.Base.Text.{Bytes, None}
use caviar_hacker_grid.Config.Grammar.{is_line_end, is_special, Word, plain, quoted}
use caviar_hacker_grid.Config.Lexer.{
  is_blank, ends_word, scan, step, in_comment, single_quote, double_quote, parse_token, eof, error,
}

-- The bytes up to the first that passes a test.
data Cut (p : ℕ → Bool) (s : Bytes) : Type 0 where
  nowhere : None p s → Cut p s
  at_byte : (w : Bytes) (c : ℕ) (rest : Bytes) → None p w → p c ≡ true → s ≡ w ++ c ∷ rest → Cut p s

cut : (p : ℕ → Bool) (s : Bytes) → Cut p s
cut p [] = nowhere tt
cut p (c ∷ s) = elim (Bool-cases (p c)) [
  | inl h ↦ at_byte [] c s tt h refl
  | inr h ↦ elim (cut p s) [
    | nowhere n ↦ nowhere (h, n)
    | at_byte w d rest n k e ↦ at_byte (c ∷ w) d rest (h, n) k (ap (◌∷◌ c) e)
  ]
]

scan_cut_comment :
    (value body : Bytes)
    → None is_line_end body
    → scan in_comment value body ≡ record { kind = eof; text = value ++ body; rest = [] }
unfolding scan step
scan_cut_comment value [] n = rw append-nil
scan_cut_comment value (b ∷ body) (p, n) =
    ground (arith, scan_cut_comment (value ++ b ∷ []) body n, append_assoc value (b ∷ []) body)

-- A quote that is not closed.
scan_open_quote :
    (q : ℕ) (value w : Bytes)
    → None (λ c. c == q) w
    → ((q ≡ b'"')
        → scan double_quote value w ≡ record { kind = error; text = value ++ w; rest = [] })
      × ((q ≡ b'\'')
          → scan single_quote value w ≡ record { kind = error; text = value ++ w; rest = [] })
unfolding scan step
scan_open_quote q value [] n = rw append-nil (λ _. refl, λ _. refl)
scan_open_quote q value (b ∷ w) (p, n) =
    ground (arith, scan_open_quote q (value ++ b ∷ []) w n, append_assoc value (b ∷ []) w)

-- A comment that the end of the file cuts off is no token.
pub parse_token_cut_comment :
    (body : Bytes)
    → None is_line_end body
    → parse_token (b'#' ∷ body) ≡ record { kind = eof; text = b'#' ∷ body; rest = [] }
unfolding parse_token
parse_token_cut_comment body n = scan_cut_comment (b'#' ∷ []) body n

parse_token_open_quote :
    (q : ℕ) (w : Bytes)
    → (q == b'"' || q == b'\'') ≡ true
    → None (λ c. c == q) w
    → parse_token (q ∷ w) ≡ record { kind = error; text = q ∷ w; rest = [] }
unfolding parse_token
parse_token_open_quote q w h n = ground (arith, scan_open_quote q (q ∷ []) w n)

-- What the end of the file may leave: a word or a comment that it cuts off.
pub data Front (s : Bytes) : Type 0 where
  nothing : s ≡ [] → Front s
  word_cut : (c : ℕ) (w : Bytes) → is_special c ≡ false → None ends_word w → s ≡ c ∷ w → Front s
  comment_cut : (body : Bytes) → None is_line_end body → s ≡ b'#' ∷ body → Front s
  open_quote :
      (q : ℕ) (w : Bytes) → parse_token s ≡ record { kind = error; text = s; rest = [] } → Front s
  blank_first : (c : ℕ) (rest : Bytes) → is_blank c ≡ true → s ≡ c ∷ rest → Front s
  comment_first :
      (body : Bytes) (c : ℕ) (rest : Bytes)
      → None is_line_end body
      → is_line_end c ≡ true
      → s ≡ b'#' ∷ (body ++ c ∷ rest)
      → Front s
  word_first : (t rest : Bytes) → Word t rest → s ≡ t ++ rest → Front s
  mark : (c : ℕ) (rest : Bytes) → (c ≡ b';') ⊎ ((c ≡ b'{') ⊎ (c ≡ b'}')) → s ≡ c ∷ rest → Front s

pub Front-cases : (s : Bytes) → Front s
Front-cases [] = nothing refl
Front-cases (c ∷ s) = elim (Bool-cases (is_blank c)) [
  | inl h ↦ blank_first c s h refl
  | inr blank ↦ elim (Bool-cases (c == b'#')) [
    | inl h ↦ elim (cut is_line_end s) [
      | nowhere n ↦ comment_cut s n (ground arith)
      | at_byte body d rest n k e ↦ comment_first body d rest n k (ground (arith, e))
    ]
    | inr hash ↦ elim (Bool-cases (c == b'"' || c == b'\'')) [
      | inl h ↦ elim (cut (λ d. d == c) s) [
        | nowhere n ↦ open_quote c s (parse_token_open_quote c s h n)
        | at_byte w d rest n k e ↦
            let same : d ≡ c = ground arith in
            word_first (c ∷ (w ++ c ∷ [])) rest (quoted w h n)
              (ap (◌∷◌ c) (e ∙ ap (λ b. w ++ b ∷ rest) same ∙ sym (append_assoc w (c ∷ []) rest)))
      ]
      | inr quote ↦ elim (Bool-cases (is_special c)) [
        | inl h ↦ mark c s (ground arith) refl
        | inr h ↦ elim (cut ends_word s) [
          | nowhere n ↦ word_cut c s h n refl
          | at_byte w d rest n k e ↦ word_first (c ∷ w) (d ∷ rest) (plain h n k) (ap (◌∷◌ c) e)
        ]
      ]
    ]
  ]
]
