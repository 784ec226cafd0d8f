-- ===== src/Config/Printer/Blocks.antt =====
-- `ToString` on a block of several statements, and `ParseConfig` on its text.
use caviar_hacker_grid.Base.{false, List, [], ◌∷◌, ◌++◌, ◌≡◌, refl, ap, ◌∙◌, append_assoc}
use caviar_hacker_grid.Base.Text.{Bytes, codes}
use caviar_hacker_grid.Config.{Config, node, Configs, nil, cons}
use caviar_hacker_grid.Config.Grammar.{Statements, finish, blank, no_gap}
use caviar_hacker_grid.Config.Grammar.Accepts.{run_statements, start-IsReady}
use caviar_hacker_grid.Config.Lexer.{TokenType, start, start_block, parse_token}
use caviar_hacker_grid.Config.Parser.{level, returned, round, parse_config, is_normal, stop}
use caviar_hacker_grid.Config.Parser.Progress.{run_token_stop}
use caviar_hacker_grid.Config.Parser.Rounds.{at}
use caviar_hacker_grid.Config.Printer.{
  indent, to_string_sub_block, braced, children_to_string, to_string,
}
use caviar_hacker_grid.Config.Printer.RoundTrip.{AreWords, IsChain, link, sub_block-Statements}

round_refuses_brace :
    (us : List Bytes) (cs : Configs) (last : TokenType) (t : Bytes)
    → is_normal last ≡ false
    → round (at (node us cs) [] last (level 0)) start_block t ≡ stop (returned false (node us cs))
unfolding round
round_refuses_brace us cs last t h = rw h refl

-- An opening brace behind statements is refused, and the tree holds those statements.
refused_brace :
    {cs : Configs} {x : Bytes} (rest : Bytes)
    → Statements cs x
    → parse_config (x ++ (b'{' ∷ rest)) (node [] nil) ≡ returned false (node [] cs)
unfolding parse_config parse_token
refused_brace {cs} {x} rest h =
    let (last, r, k, close, e) = run_statements [] nil [] 0 start (b'{' ∷ rest) start-IsReady h in
    e
    ∙ run_token_stop (at (node [] cs) [] last (level 0)) (returned false (node [] cs)) (b'{' ∷ rest)
        (b'{' ∷ []) rest start_block refl (round_refuses_brace [] cs last (b'{' ∷ []) r.fresh)

-- Where the first statement of a tree has a block of two statements or more, of which the first can be
-- read back, `ParseConfig` refuses what `ToString` prints, and the tree it leaves has only the first
-- statement of that block.
pub parse_config-to_string_siblings :
    {ts : List Bytes} {d : Config} (e : Config) (ds cs : Configs)
    → AreWords ts
    → IsChain d
    → parse_config (to_string (node [] (cons (node ts (cons d (cons e ds))) cs))) (node [] nil)
      ≡ returned false (node [] (cons (node ts (cons d nil)) nil))
unfolding to_string children_to_string to_string_sub_block
parse_config-to_string_siblings {ts} {d} e ds cs h c =
    let more =
      codes "\n" ++ (to_string_sub_block 1 e ++ (indent 0 ++ (codes "}\n" ++ braced 0 ds))) in
    let statements : Statements (cons (node ts (cons d nil)) nil)
        (to_string_sub_block 0 (node ts (cons d nil)) ++ codes " ") =
      sub_block-Statements 0 (link h c) (finish (blank refl no_gap)) in
    let text : to_string (node [] (cons (node ts (cons d (cons e ds))) cs))
        ≡ (to_string_sub_block 0 (node ts (cons d nil)) ++ codes " ")
          ++ (b'{' ∷ (more ++ children_to_string 0 cs)) =
      simp append_assoc in
    ap (λ s. parse_config s (node [] nil)) text
    ∙ refused_brace (more ++ children_to_string 0 cs) statements
