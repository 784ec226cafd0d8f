-- ===== src/Config/Grammar/Edges.antt =====
-- What `ParseConfig` does with a word that the end of the file cuts off, and with a closing brace too
-- many.
use caviar_hacker_grid.Base.{ℕ, true, false, [], ◌∷◌, ◌++◌, ◌≡◌, refl, ◌∙◌, arith}
use caviar_hacker_grid.Base.Text.{Bytes, None}
use caviar_hacker_grid.Config.{Config, node, Configs, nil, cons}
use caviar_hacker_grid.Config.Lexer.{TokenType, start, normal, end_block, parse_token}
use caviar_hacker_grid.Config.Parser.{
  State, level, returned, round, may_close, parse_config, undefined, popped, stop, negative,
}
use caviar_hacker_grid.Config.Parser.Progress.{run, run_token, run_to_end, run_token_stop}
use caviar_hacker_grid.Config.Parser.Rounds.{at}
use caviar_hacker_grid.Config.Grammar.{Word, Statements, is_special, ends_word}
use caviar_hacker_grid.Config.Grammar.Reading.{parse_token-Word, parse_token_cut_word}
use caviar_hacker_grid.Config.Grammar.Accepts.{run_statements, run-end_of_file, start-IsReady}

pub run_last_word :
    (s : State) (c : ℕ) (w : Bytes)
    → is_special c ≡ false
    → None ends_word w
    → run s (c ∷ w) ≡ run s []
run_last_word s c w h n = run_to_end s (c ∷ w) (c ∷ w) (parse_token_cut_word c w h n)

-- A plain word at the end of the file, behind statements and with no byte that ends it, is dropped: the
-- file is accepted as if the word were not there.
pub parse_config_drops_last_word :
    {cs : Configs} {x : Bytes} (c : ℕ) (w : Bytes)
    → Statements cs x
    → is_special c ≡ false
    → None ends_word w
    → parse_config (x ++ c ∷ w) (node [] nil) ≡ returned true (node [] cs)
unfolding parse_config
parse_config_drops_last_word {cs} c w h special n =
    let (last, r, k, _, e) = run_statements [] nil [] 0 start (c ∷ w) start-IsReady h in
    e
    ∙ run_last_word (at (node [] cs) [] last (level 0)) c w special n
    ∙ run-end_of_file [] cs last (k.ends refl)

abbrev closed : Config → State
closed top = record { stack = popped top; last = end_block; depth = negative 0 }

after_root : (top : Config) (t : Bytes) → round (closed top) normal t ≡ stop undefined
unfolding round
after_root top t = refl

pub run_root_brace :
    (top : Config) (last : TokenType) (rest : Bytes)
    → may_close last ≡ true
    → run (at top [] last (level 0)) (b'}' ∷ rest) ≡ run (closed top) rest
unfolding round parse_token
run_root_brace top last rest h =
    run_token (at top [] last (level 0)) (closed top) (b'}' ∷ rest) (b'}' ∷ []) rest end_block refl
      (omega arith) (rw h)

-- Behind one statement or more, a closing brace too many and then a word are undefined behaviour: the
-- brace closes the root, and the word is added to the top of an empty stack.
pub parse_config_stray_brace :
    {c : Config} {cs : Configs} {x t rest : Bytes}
    → Statements (cons c cs) x
    → Word t rest
    → parse_config (x ++ (b'}' ∷ (t ++ rest))) (node [] nil) ≡ undefined
unfolding parse_config
parse_config_stray_brace {c} {cs} {x} {t} {rest} h wd =
    let (last, r, k, close, e) =
      run_statements [] nil [] 0 start (b'}' ∷ (t ++ rest)) start-IsReady h in
    e
    ∙ run_root_brace (node [] (cons c cs)) last (t ++ rest) close
    ∙ run_token_stop (closed (node [] (cons c cs))) undefined (t ++ rest) t rest normal
        (parse_token-Word t rest wd) (after_root (node [] (cons c cs)) t)
