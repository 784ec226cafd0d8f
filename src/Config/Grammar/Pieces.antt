-- ===== src/Config/Grammar/Pieces.antt =====
-- Statements at the front of a text, and what stands behind them.
use caviar_hacker_grid.Base.{
  true, List, [], ◌∷◌, ◌++◌, ◌≡◌, refl, ap, sym, ◌∙◌, append_assoc, length, subst,
}
use caviar_hacker_grid.Base.Text.{Bytes}
use caviar_hacker_grid.Config.{Config, node, Configs, nil, cons, snoc, concat}
use caviar_hacker_grid.Config.Lexer.{end_block}
use caviar_hacker_grid.Config.Parser.{level, returned}
use caviar_hacker_grid.Config.Parser.Progress.{run}
use caviar_hacker_grid.Config.Parser.Rounds.{at}
use caviar_hacker_grid.Config.Trees.{concat-snoc, concat-nil}
use caviar_hacker_grid.Config.Grammar.{Gap, no_gap, Words, Statements, finish, simple, block, Tail}
use caviar_hacker_grid.Config.Grammar.Trails.{Statements-Gap}

-- What stands behind the statements of a node: the end of the file behind those of the root, with the
-- tree; the closing brace behind those of a block, and the run from there.
abbrev pub Ends : List Bytes → Config → Configs → List Config → Bytes → Type 0
Ends us final all [] rest = Tail rest × (final ≡ node us all)
Ends us final all (node ts cs ∷ below) rest =
    (rest' : Bytes) × (rest ≡ b'}' ∷ rest')
    × (run (at (node ts (snoc cs (node us all))) below end_block (level (length below))) rest'
        ≡ returned true final)

module _ (us : List Bytes) (final : Config) where
  pub record Read (cs : Configs) (below : List Config) (input : Bytes) : Type 0 where
    pub ds : Configs
    pub x : Bytes
    pub rest : Bytes
    pub statements : Statements ds x
    pub text : input ≡ x ++ rest
    pub ends : Ends us final (concat cs ds) below rest

  pub Read-end :
      (cs : Configs) (below : List Config) (rest : Bytes)
      → Ends us final cs below rest
      → Read cs below rest
  Read-end cs below rest e = record {
    ds = nil;
    x = [];
    rest = rest;
    statements = finish no_gap;
    text = refl;
    ends = subst (λ all. Ends us final all below rest) (sym (concat-nil cs)) e;
  }

  pub Read-Gap :
      (cs : Configs) (below : List Config) {input g : Bytes} (rest : Bytes)
      → Gap g
      → input ≡ g ++ rest
      → Read cs below rest
      → Read cs below input
  Read-Gap cs below {g} rest gap e r = record {
    ds = r.ds;
    x = g ++ r.x;
    rest = r.rest;
    statements = Statements-Gap gap r.statements;
    text = e ∙ ap (◌++◌ g) r.text ∙ sym (append_assoc g r.x r.rest);
    ends = r.ends;
  }

  pub Read-simple :
      (cs : Configs) (below : List Config) {input w : Bytes} {ts : List Bytes} (rest : Bytes)
      → Words b';' ts w
      → input ≡ w ++ b';' ∷ rest
      → Read (snoc cs (node ts nil)) below rest
      → Read cs below input
  Read-simple cs below {w} {ts} rest words e r = record {
    ds = cons (node ts nil) r.ds;
    x = w ++ (b';' ∷ r.x);
    rest = r.rest;
    statements = simple [] w r.x no_gap words r.statements;
    text = e ∙ ap (λ s. w ++ b';' ∷ s) r.text ∙ sym (append_assoc w (b';' ∷ r.x) r.rest);
    ends = subst (λ all. Ends us final all below r.rest) (concat-snoc cs (node ts nil) r.ds) r.ends;
  }

  pub Read-block :
      (cs : Configs) (below : List Config) {input w y : Bytes} {ts : List Bytes} {inner : Configs}
      (rest : Bytes)
      → Words b'{' ts w
      → Statements inner y
      → input ≡ w ++ b'{' ∷ (y ++ b'}' ∷ rest)
      → Read (snoc cs (node ts inner)) below rest
      → Read cs below input
  Read-block cs below {w} {y} {ts} {inner} rest words body e r = record {
    ds = cons (node ts inner) r.ds;
    x = w ++ (b'{' ∷ (y ++ (b'}' ∷ r.x)));
    rest = r.rest;
    statements = block [] w y r.x no_gap words body r.statements;
    text = e ∙ ap (λ s. w ++ b'{' ∷ (y ++ b'}' ∷ s)) r.text ∙ simp append_assoc;
    ends =
        subst (λ all. Ends us final all below r.rest) (concat-snoc cs (node ts inner) r.ds) r.ends;
  }
