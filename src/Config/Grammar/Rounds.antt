-- ===== src/Config/Grammar/Rounds.antt =====
-- The rounds of `ParseConfig` on the gaps and the words of a text of the grammar.
use caviar_hacker_grid.Base.{
  ℕ, ◌<◌, List, [], ◌∷◌, ◌++◌, ◌≡◌, refl, ap, ◌∙◌, arith, append_assoc, length, length-append,
}
use caviar_hacker_grid.Base.Text.{Bytes}
use caviar_hacker_grid.Config.{Config, node, Configs, nil, snoc}
use caviar_hacker_grid.Config.Lexer.{normal, comment}
use caviar_hacker_grid.Config.Parser.{State, level, next, round}
use caviar_hacker_grid.Config.Parser.Progress.{run, run_token, run_skip}
use caviar_hacker_grid.Config.Parser.Rounds.{at, round_more_words}
use caviar_hacker_grid.Config.Grammar.{
  Gap, no_gap, blank, remark, Word, plain, quoted, Words, last_word, word,
}
use caviar_hacker_grid.Config.Grammar.Reading.{
  parse_token_blank, parse_token_remark, parse_token-Word,
}

-- A gap changes nothing.
pub run-Gap : (s : State) {g : Bytes} (rest : Bytes) → Gap g → run s (g ++ rest) ≡ run s rest
unfolding round
run-Gap s rest no_gap = refl
run-Gap s rest (blank {c} {g} h gap) =
    run_skip s c (g ++ rest) (parse_token_blank c (g ++ rest) h) ∙ run-Gap s rest gap
run-Gap s rest (remark body {g} c n h gap) =
    ap (λ x. run s (b'#' ∷ x)) (append_assoc body (c ∷ g) rest)
    ∙ run_token s s _ (b'#' ∷ body) (g ++ rest) comment (parse_token_remark body c (g ++ rest) n h)
        (omega (arith, length-append body (c ∷ (g ++ rest)))) refl
    ∙ run-Gap s rest gap

pub Word-length : (t rest : Bytes) → Word t rest → length rest < length (t ++ rest)
Word-length t rest (plain {w} _ _ _) = omega (arith, length-append w rest)
Word-length t rest (quoted {q} w _ _) = omega (arith, length-append (w ++ q ∷ []) rest)

-- A word is one round.
pub run-Word :
    (s s' : State) (t rest : Bytes)
    → Word t rest
    → round s normal t ≡ next s'
    → run s (t ++ rest) ≡ run s' rest
run-Word s s' t rest w e =
    run_token s s' (t ++ rest) t rest normal (parse_token-Word t rest w) (Word-length t rest w) e

Word-append : {t rest : Bytes} (x : Bytes) → Word t rest → Word t (rest ++ x)
Word-append {rest = []} x (plain _ _ d) = elim d [ ]
Word-append {rest = c ∷ rest} x (plain h n d) = plain h n d
Word-append x (quoted w h n) = quoted w h n

module _ (us : List Bytes) (cs : Configs) (below : List Config) (n : ℕ) where
  -- The state behind the words of a statement.
  abbrev pub worded : List Bytes → State
  worded ts = at (node us (snoc cs (node ts nil))) below normal (level n)

  -- The words of a statement reach the last child in order.
  pub run-Words :
      {ending : ℕ} {ts : List Bytes} {w : Bytes} (s : State) (vs : List Bytes) (rest : Bytes)
      → ((t : Bytes) → round s normal t ≡ next (worded (vs ++ t ∷ [])))
      → Words ending ts w
      → run s (w ++ ending ∷ rest) ≡ run (worded (vs ++ ts)) (ending ∷ rest)
  run-Words {ending} s vs rest e (last_word t g wd gap) =
      ap (run s) (append_assoc t g (ending ∷ rest))
      ∙ run-Word s (worded (vs ++ t ∷ [])) t (g ++ ending ∷ rest)
          (rw append_assoc at (Word-append rest wd)) (e t)
      ∙ run-Gap (worded (vs ++ t ∷ [])) (ending ∷ rest) gap
  run-Words {ending} s vs rest e (word t g u {ts} wd gap more) =
      ap (run s) (append_assoc t (g ++ u) (ending ∷ rest))
      ∙ run-Word s (worded (vs ++ t ∷ [])) t ((g ++ u) ++ ending ∷ rest)
          (Word-append (ending ∷ rest) wd) (e t)
      ∙ ap (run (worded (vs ++ t ∷ []))) (append_assoc g u (ending ∷ rest))
      ∙ run-Gap (worded (vs ++ t ∷ [])) (u ++ ending ∷ rest) gap
      ∙ run-Words (worded (vs ++ t ∷ [])) (vs ++ t ∷ []) rest
          (λ t'. round_more_words us cs below (level n) (vs ++ t ∷ []) nil t') more
      ∙ ap (λ x. run (worded x) (ending ∷ rest)) (append_assoc vs (t ∷ []) ts)
