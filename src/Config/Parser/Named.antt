-- ===== src/Config/Parser/Named.antt =====
-- The trees that `ParseConfig` leaves behind.
use caviar_hacker_grid.Base.{zero, suc, List, [], ◌≡◌, length, ℕ, Bool, suc, subst}
use caviar_hacker_grid.Base.Text.{Bytes}
use caviar_hacker_grid.Config.{node, Configs, nil, children}
use caviar_hacker_grid.Config.Lexer.{parse_token}
use caviar_hacker_grid.Config.Parser.{
  State, undefined, returned, out_of_rounds, stop, initial, round, Outcome, parse_loop,
  parse_config,
}
use caviar_hacker_grid.Config.Parser.Progress.{goes, stops, Round-cases}
use caviar_hacker_grid.Config.Trees.{AreNamed}
use caviar_hacker_grid.Config.Parser.Invariant.{Inv, initial-Inv, After, round-Inv}

-- An outcome with a tree in which every statement has a word.
abbrev pub ReturnsNamed : Outcome → Type 0
ReturnsNamed (returned ok c) = AreNamed (children c)
ReturnsNamed _ = Unit

After-ReturnsNamed : (s : State) (o : Outcome) → After s (stop o) → ReturnsNamed o
After-ReturnsNamed s (returned ok c) a = a
After-ReturnsNamed s undefined a = tt
After-ReturnsNamed s out_of_rounds a = tt

parse_loop-ReturnsNamed :
    (n : ℕ) (s : State) (input : Bytes) → Inv s → ReturnsNamed (parse_loop n s input)
unfolding parse_loop
parse_loop-ReturnsNamed zero s input v = tt
parse_loop-ReturnsNamed (suc n) s input v =
    let t = parse_token input in
    let inv = round-Inv s t.kind t.text v in
    elim (Round-cases (round s t.kind t.text)) [
      | goes s' e ↦ rw (parse_loop, e) (parse_loop-ReturnsNamed n s' t.rest (rw e at inv))
      | stops o e ↦ rw (parse_loop, e) (After-ReturnsNamed s o (rw e at inv))
    ]

-- Whether or not a file is accepted, every statement in the tree that `ParseConfig` has built from
-- an empty one has a first token.
pub parse_config-AreNamed :
    (input : Bytes) (ok : Bool) (ts : List Bytes) (cs : Configs)
    → parse_config input (node [] nil) ≡ returned ok (node ts cs)
    → AreNamed cs
unfolding parse_config
parse_config-AreNamed input ok ts cs e =
    subst ReturnsNamed e
      (parse_loop-ReturnsNamed (suc (length input)) (initial (node [] nil)) input initial-Inv)
