-- ===== src/Config/Parser/Rounds.antt =====
-- What a round makes of the stack, by the token read and the token before it.
use caviar_hacker_grid.Base.{true, false, List, [], ◌∷◌, ◌++◌, ◌≡◌, arith}
use caviar_hacker_grid.Base.Text.{Bytes}
use caviar_hacker_grid.Config.{Config, node, Configs, nil, snoc}
use caviar_hacker_grid.Config.Lexer.{TokenType, normal, start_block, end_block}
use caviar_hacker_grid.Config.Parser.{
  State, open_nodes, Depth, next, round, is_normal, may_hold_word, may_close, deeper, shallower,
}
use caviar_hacker_grid.Config.Trees.{push_back-snoc, split_back-snoc}

abbrev pub at : Config → List Config → TokenType → Depth → State
at top below last depth = record { stack = open_nodes top below; last = last; depth = depth }

module _ (ts : List Bytes) (cs : Configs) (below : List Config) (depth : Depth) where
  pub round_first_word :
      (last : TokenType) (t : Bytes)
      → may_hold_word last ≡ true
      → is_normal last ≡ false
      → round (at (node ts cs) below last depth) normal t
        ≡ next (at (node ts (snoc cs (node (t ∷ []) nil))) below normal depth)
  unfolding round
  round_first_word last t h k = rw (h, k, push_back-snoc cs [] nil t)

  pub round_more_words :
      (us : List Bytes) (ds : Configs) (t : Bytes)
      → round (at (node ts (snoc cs (node us ds))) below normal depth) normal t
        ≡ next (at (node ts (snoc cs (node (us ++ t ∷ []) ds))) below normal depth)
  unfolding round
  round_more_words us ds t = ground (arith, push_back-snoc cs us ds t)

  pub round_open :
      (d : Config) (t : Bytes)
      → round (at (node ts (snoc cs d)) below normal depth) start_block t
        ≡ next (at d (node ts cs ∷ below) start_block (deeper depth))
  unfolding round
  round_open d t = ground (arith, split_back-snoc cs d)

  pub round_close :
      (top : Config) (last : TokenType) (t : Bytes)
      → may_close last ≡ true
      → round (at top (node ts cs ∷ below) last depth) end_block t
        ≡ next (at (node ts (snoc cs top)) below end_block (shallower depth))
  unfolding round
  round_close top last t h = rw h
