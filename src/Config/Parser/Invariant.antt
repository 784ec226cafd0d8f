-- ===== src/Config/Parser/Invariant.antt =====
-- What holds of the stack, the last token type and the depth before every round.
use mathlib.Core.List.{concat-ne-nil}
use caviar_hacker_grid.Base.{
  true, List, [], ◌∷◌, ◌≡◌, ◌≢◌, refl, length, Bool-cases, false, inl, inr,
}
use caviar_hacker_grid.Base.Text.{Bytes}
use caviar_hacker_grid.Config.{Config, node, Configs, nil, snoc, children}
use caviar_hacker_grid.Config.Lexer.{
  TokenType, start, normal, start_block, end_block, comment, statement_end, eof, error,
}
use caviar_hacker_grid.Config.Parser.{
  State, Stack, popped, open_nodes, Depth, level, negative, undefined, returned, out_of_rounds,
  Round, next, stop, is_normal, root, close_all, initial, may_hold_word, round, may_close, may_end,
}
use caviar_hacker_grid.Config.Parser.Rounds.{at, round_first_word, round_more_words, round_open}
use caviar_hacker_grid.Config.Trees.{
  AreNamed, none_left, AreNamed-snoc, HasBack, has_back, AreNamed-snoc_back,
}

-- Every statement under an open node has a word, and so has every open node but the root.
abbrev pub OpenNamed : Config → List Config → Type 0
OpenNamed (node ts cs) [] = AreNamed cs
OpenNamed (node ts cs) (parent ∷ below) = (ts ≢ []) × AreNamed cs × OpenNamed parent below

abbrev pub StackInv : Stack → TokenType → Depth → Type 0
StackInv (popped c) last depth = (last ≡ end_block) × (depth ≡ negative 0) × AreNamed (children c)
StackInv (open_nodes top below) last depth =
    (depth ≡ level (length below))
    × OpenNamed top below
    × (is_normal last ≡ true → HasBack (children top))

abbrev pub Inv : State → Type 0
Inv s = StackInv s.stack s.last s.depth

pub initial-Inv : Inv (initial (node [] nil))
initial-Inv = (refl, none_left, λ h. cc)

-- What may come of a round: a state of the invariant, or an outcome.
abbrev pub After : State → Round → Type 0
After s (next s') = Inv s'
After s (stop (returned ok c)) = AreNamed (children c)
After s (stop undefined) = (c : Config) × (s.stack ≡ popped c)
After s (stop out_of_rounds) = ⊥

close_all-AreNamed :
    (top : Config) (below : List Config)
    → OpenNamed top below
    → AreNamed (children (close_all top below))
close_all-AreNamed (node ts cs) [] a = a
close_all-AreNamed (node ts cs) (node us ds ∷ []) (ne, a, b) = AreNamed-snoc ts ne b a
close_all-AreNamed (node ts cs) (node us ds ∷ p ∷ below) (ne, a, (ne', b, c)) =
    close_all-AreNamed (node us (snoc ds (node ts cs))) (p ∷ below)
      (ne', AreNamed-snoc ts ne b a, c)

root-AreNamed :
    (stack : Stack) (last : TokenType) (depth : Depth)
    → StackInv stack last depth
    → AreNamed (children (root stack))
root-AreNamed (popped c) last depth (_, _, a) = a
root-AreNamed (open_nodes top below) last depth (_, a, _) = close_all-AreNamed top below a

-- The new children of an open node keep it named.
OpenNamed-children :
    (ts : List Bytes) (cs cs' : Configs) (below : List Config)
    → OpenNamed (node ts cs) below
    → (AreNamed cs → AreNamed cs')
    → OpenNamed (node ts cs') below
OpenNamed-children ts cs cs' [] a f = f a
OpenNamed-children ts cs cs' (p ∷ below) (ne, a, b) f = (ne, f a, b)

OpenNamed-AreNamed :
    (ts : List Bytes) (cs : Configs) (below : List Config)
    → OpenNamed (node ts cs) below
    → AreNamed cs
OpenNamed-AreNamed ts cs [] a = a
OpenNamed-AreNamed ts cs (p ∷ below) (_, a, _) = a

eq-normal : (last : TokenType) → is_normal last ≡ true → last ≡ normal
eq-normal normal h = refl
eq-normal _ h = cc

-- One lemma for each type of token, on a stack that holds an open node.
module _ (ts : List Bytes) (cs : Configs) (below : List Config) (token : Bytes) where
  abbrev here : TokenType → State
  here last = at (node ts cs) below last (level (length below))

  After-more_words :
      OpenNamed (node ts cs) below
      → HasBack cs
      → After (here normal) (round (here normal) normal token)
  After-more_words named (has_back front (node us ds) e) =
      let (_, a, b) =
        AreNamed-snoc_back front us ds (rw e at (OpenNamed-AreNamed ts cs below named)) in
      rw e (
        rw (round_more_words ts front below (level (length below)) us ds token) (
          refl,
          OpenNamed-children ts cs _ below named
              (λ _. AreNamed-snoc _ (concat-ne-nil token us) b a),
          λ _. has_back front _ refl,
        ))

  After-first_word :
      (last : TokenType)
      → OpenNamed (node ts cs) below
      → may_hold_word last ≡ true
      → is_normal last ≡ false
      → After (here last) (round (here last) normal token)
  After-first_word last named h n =
      rw (round_first_word ts cs below (level (length below)) last token h n) (
        refl,
        OpenNamed-children ts cs _ below named
            (λ a. AreNamed-snoc (token ∷ []) (λ e. cc) a none_left),
        λ _. has_back cs _ refl,
      )

  After-open :
      OpenNamed (node ts cs) below
      → HasBack cs
      → After (here normal) (round (here normal) start_block token)
  After-open named (has_back front (node us ds) e) =
      let (ne, a, b) =
        AreNamed-snoc_back front us ds (rw e at (OpenNamed-AreNamed ts cs below named)) in
      rw e (
        rw (round_open ts front below (level (length below)) (node us ds) token)
          (refl, (ne, a, OpenNamed-children ts cs front below named (λ _. b)), λ h. cc))

After-close :
    (top : Config) (below : List Config) (last : TokenType) (token : Bytes)
    → OpenNamed top below
    → may_close last ≡ true
    → After
        (at top below last (level (length below)))
        (round (at top below last (level (length below))) end_block token)
unfolding round
After-close (node ts cs) [] last token named h = rw h (refl, refl, named)
After-close (node ts cs) (node us ds ∷ below) last token (ne, a, b) h =
    rw h (refl, OpenNamed-children us ds _ below b (λ d. AreNamed-snoc ts ne d a), λ k. cc)

-- The invariant holds of the next state, whatever the token.
round_step :
    (stack : Stack) (last : TokenType) (depth : Depth) (kind : TokenType) (token : Bytes)
    → StackInv stack last depth
    → After
        (record { stack = stack; last = last; depth = depth })
        (round (record { stack = stack; last = last; depth = depth }) kind token)
unfolding round
round_step stack last depth error token v = root-AreNamed stack last depth v
round_step stack last depth start token v = root-AreNamed stack last depth v
round_step stack last depth comment token v = v
round_step (popped c) end_block depth statement_end token v = v.2
round_step (popped c) end_block depth start_block token v = v.2
round_step (popped c) end_block depth normal token v = (c, refl)
round_step (popped c) end_block depth end_block token v = (c, refl)
round_step (popped c) end_block depth eof token v = v.2
round_step (popped c) _ depth _ token (e, _, _) = cc
round_step (open_nodes top below) normal depth statement_end token (d, a, _) = (d, a, λ h. cc)
round_step (open_nodes (node ts cs) below) normal depth start_block token (d, a, back) =
    rw d (After-open ts cs below token a (back refl))
round_step (open_nodes (node ts cs) below) normal depth normal token (d, a, back) =
    rw d (After-more_words ts cs below token a (back refl))
round_step (open_nodes (node ts cs) below) start depth normal token (d, a, _) =
    rw d (After-first_word ts cs below token start a refl refl)
round_step (open_nodes (node ts cs) below) statement_end depth normal token (d, a, _) =
    rw d (After-first_word ts cs below token statement_end a refl refl)
round_step (open_nodes (node ts cs) below) start_block depth normal token (d, a, _) =
    rw d (After-first_word ts cs below token start_block a refl refl)
round_step (open_nodes (node ts cs) below) end_block depth normal token (d, a, _) =
    rw d (After-first_word ts cs below token end_block a refl refl)
round_step (open_nodes top below) statement_end depth end_block token (d, a, _) =
    rw d (After-close top below statement_end token a refl)
round_step (open_nodes top below) end_block depth end_block token (d, a, _) =
    rw d (After-close top below end_block token a refl)
round_step (open_nodes top below) start_block depth end_block token (d, a, _) =
    rw d (After-close top below start_block token a refl)
round_step (open_nodes top below) last depth eof token (d, a, _) =
    elim (Bool-cases (may_end last)) [
      | inl e ↦ rw e (close_all-AreNamed top below a)
      | inr e ↦ rw e (close_all-AreNamed top below a)
    ]
round_step (open_nodes top below) _ depth _ token (d, a, _) = close_all-AreNamed top below a

-- A round of the parser in a state of the invariant goes on in such a state, unless it stops: with a
-- tree whose statements have words, or in undefined behaviour, and that only if the root itself has
-- been closed.
pub round-Inv :
    (s : State) (kind : TokenType) (token : Bytes) → Inv s → After s (round s kind token)
round-Inv s kind token v = round_step s.stack s.last s.depth kind token v
