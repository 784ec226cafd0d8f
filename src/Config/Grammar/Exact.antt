-- ===== src/Config/Grammar/Exact.antt =====
-- The files that `ParseConfig` accepts are the texts of the grammar.
use caviar_hacker_grid.Base.{
  suc, true, List, [], ◌∷◌, ◌≡◌, ◌↔◌, refl, ap, sym, ◌∙◌, subst, arith, length,
}
use caviar_hacker_grid.Base.Text.{Bytes}
use caviar_hacker_grid.Config.{node, Configs, nil}
use caviar_hacker_grid.Config.Lexer.{TokenType, start}
use caviar_hacker_grid.Config.Parser.{returned, parse_config, initial, level}
use caviar_hacker_grid.Config.Parser.Progress.{run, run_to_end}
use caviar_hacker_grid.Config.Parser.Rounds.{at}
use caviar_hacker_grid.Config.Grammar.{Statements, Tail, at_end, cut_word, cut_comment, IsText}
use caviar_hacker_grid.Config.Grammar.Accepts.{run_statements, run-end_of_file, start-IsReady}
use caviar_hacker_grid.Config.Grammar.Edges.{run_last_word}
use caviar_hacker_grid.Config.Grammar.Fronts.{parse_token_cut_comment}
use caviar_hacker_grid.Config.Grammar.Sound.{read_statements}

run-Tail :
    (cs : Configs) (last : TokenType) (back : Bytes)
    → Tail back
    → run (at (node [] cs) [] last (level 0)) back ≡ run (at (node [] cs) [] last (level 0)) []
run-Tail cs last _ at_end = refl
run-Tail cs last _ (cut_word {c} {w} h n) =
    run_last_word (at (node [] cs) [] last (level 0)) c w h n
run-Tail cs last _ (cut_comment {body} n) =
    run_to_end (at (node [] cs) [] last (level 0)) (b'#' ∷ body) (b'#' ∷ body)
      (parse_token_cut_comment body n)

parse_config-IsText :
    {cs : Configs} {x : Bytes}
    → IsText cs x
    → parse_config x (node [] nil) ≡ returned true (node [] cs)
unfolding parse_config
parse_config-IsText {cs} {x} t =
    let (last, _, k, _, e) = run_statements [] nil [] 0 start t.back start-IsReady t.statements in
    ap (run (initial (node [] nil))) t.split
    ∙ e
    ∙ run-Tail cs last t.back t.tail
    ∙ run-end_of_file [] cs last (k.ends refl)

IsText-parse_config :
    (ts : List Bytes) (cs : Configs) (x : Bytes)
    → parse_config x (node [] nil) ≡ returned true (node ts cs)
    → (ts ≡ []) × IsText cs x
unfolding parse_config
IsText-parse_config ts cs x e =
    let r =
      read_statements (suc (length x)) [] (node ts cs) nil [] start x (omega arith) start-IsReady
        e in
    let (tail, f) = r.ends in
    let same : r.ds ≡ cs = cc in
    (
      cc,
      record {
        front = r.x;
        back = r.rest;
        split = r.text;
        statements = subst (λ ds. Statements ds r.x) same r.statements;
        tail = tail;
      },
    )

-- `ParseConfig` accepts a file, with a tree, if and only if the tree's root has no tokens and the file is
-- a text of the grammar for the root's children, behind which may stand a plain word or a comment that
-- the end of the file cuts off.
pub parse_config_iff :
    (ts : List Bytes) (cs : Configs) (x : Bytes)
    → (parse_config x (node [] nil) ≡ returned true (node ts cs)) ↔ ((ts ≡ []) × IsText cs x)
parse_config_iff ts cs x = (
  IsText-parse_config ts cs x,
  λ (e, t).
      subst (λ us. parse_config x (node [] nil) ≡ returned true (node us cs)) (sym e)
        (parse_config-IsText t),
)
