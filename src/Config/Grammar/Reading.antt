-- ===== src/Config/Grammar/Reading.antt =====
-- `ParseToken` and `ParseConfig` on texts of the grammar.
use caviar_hacker_grid.Base.{
  ℕ, true, false, [], ◌∷◌, ◌++◌, ◌==◌, ◌≡◌, arith, append-nil, append_assoc,
}
use caviar_hacker_grid.Base.Text.{Bytes, None}
use caviar_hacker_grid.Config.Lexer.{
  is_blank, ends_word, normal, comment, scan, step, in_normal, in_comment, single_quote,
  double_quote, parse_token, eof,
}
use caviar_hacker_grid.Config.Grammar.{is_line_end, is_special, Delimited, Word, plain, quoted}

pub parse_token_blank :
    (c : ℕ) (input : Bytes) → is_blank c ≡ true → parse_token (c ∷ input) ≡ parse_token input
unfolding parse_token
parse_token_blank c input h = ground arith

scan_comment :
    (value body : Bytes) (c : ℕ) (rest : Bytes)
    → None is_line_end body
    → is_line_end c ≡ true
    → scan in_comment value (body ++ c ∷ rest)
      ≡ record { kind = comment; text = value ++ body; rest = rest }
unfolding scan step
scan_comment value [] c rest n h = rw append-nil (ground arith)
scan_comment value (b ∷ body) c rest (p, n) h =
    ground (arith, scan_comment (value ++ b ∷ []) body c rest n h, append_assoc value (b ∷ []) body)

scan_plain :
    (value w rest : Bytes)
    → None ends_word w
    → Delimited rest
    → scan in_normal value (w ++ rest) ≡ record { kind = normal; text = value ++ w; rest = rest }
unfolding scan step
scan_plain value [] [] n d = elim d [ ]
scan_plain value [] (c ∷ rest) n d = rw append-nil (ground arith)
scan_plain value (b ∷ w) rest (p, n) d =
    ground (arith, scan_plain (value ++ b ∷ []) w rest n d, append_assoc value (b ∷ []) w)

scan_quoted :
    (q : ℕ) (value w rest : Bytes)
    → None (λ c. c == q) w
    → ((q ≡ b'"')
        → scan double_quote value (w ++ q ∷ rest)
          ≡ record { kind = normal; text = value ++ (w ++ q ∷ []); rest = rest })
      × ((q ≡ b'\'')
          → scan single_quote value (w ++ q ∷ rest)
            ≡ record { kind = normal; text = value ++ (w ++ q ∷ []); rest = rest })
unfolding scan step
scan_quoted q value [] rest n = ground arith
scan_quoted q value (b ∷ w) rest (p, n) =
    ground
      (arith, scan_quoted q (value ++ b ∷ []) w rest n, append_assoc value (b ∷ []) (w ++ q ∷ []))

-- A word is read whole, and the stream is left behind it.
pub parse_token-Word :
    (t rest : Bytes)
    → Word t rest
    → parse_token (t ++ rest) ≡ record { kind = normal; text = t; rest = rest }
unfolding parse_token
parse_token-Word t rest (plain {c} {w} special n d) = ground (arith, scan_plain (c ∷ []) w rest n d)
parse_token-Word t rest (quoted {q} w h n) =
    ground (arith, scan_quoted q (q ∷ []) w rest n, append_assoc w (q ∷ []) rest)

pub parse_token_remark :
    (body : Bytes) (c : ℕ) (rest : Bytes)
    → None is_line_end body
    → is_line_end c ≡ true
    → parse_token (b'#' ∷ (body ++ c ∷ rest))
      ≡ record { kind = comment; text = b'#' ∷ body; rest = rest }
unfolding parse_token
parse_token_remark body c rest n h = scan_comment (b'#' ∷ []) body c rest n h

scan_to_end :
    (value w : Bytes)
    → None ends_word w
    → scan in_normal value w ≡ record { kind = eof; text = value ++ w; rest = [] }
unfolding scan step
scan_to_end value [] n = rw append-nil
scan_to_end value (b ∷ w) (p, n) =
    ground (arith, scan_to_end (value ++ b ∷ []) w n, append_assoc value (b ∷ []) w)

-- A plain word that the end of the file cuts off is not returned as a token.
pub parse_token_cut_word :
    (c : ℕ) (w : Bytes)
    → is_special c ≡ false
    → None ends_word w
    → parse_token (c ∷ w) ≡ record { kind = eof; text = c ∷ w; rest = [] }
unfolding parse_token
parse_token_cut_word c w h n = ground (arith, scan_to_end (c ∷ []) w n)
