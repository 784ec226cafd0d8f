-- ===== src/Config/Parser.antt =====
-- nginx-configparser/config_parser.cc, `ParseConfig`. `config_stack` holds pointers into one tree,
-- each to the last child of the one below. The model keeps a node that is open out of its parent's
-- children until its block is closed, so that the stack is the list of the open nodes.
pub mod Progress
pub mod Rounds
pub mod Invariant
pub mod Named
use caviar_hacker_grid.Base.{
  ℕ, zero, suc, Bool, true, false, List, [], ◌∷◌, ◌++◌, Option, none, some, ◌>>=◌, length,
  if◌then◌else◌,
}
use caviar_hacker_grid.Base.Text.{Bytes}
use caviar_hacker_grid.Config.{Config, node, Configs, nil, cons, snoc}
use caviar_hacker_grid.Config.Lexer.{
  TokenType, start, normal, start_block, end_block, comment, statement_end, eof, error, parse_token,
}

-- `config_stack`: the root alone once it is popped itself; else the open nodes, the top first.
pub data Stack : Type 0 where
  popped : Config → Stack
  open_nodes : Config → List Config → Stack

-- `block_depth`, an `int`: `negative n` is -(n + 1).
pub data Depth : Type 0 where
  level : ℕ → Depth
  negative : ℕ → Depth

abbrev pub deeper : Depth → Depth
deeper (level n) = level (suc n)
deeper (negative zero) = level zero
deeper (negative (suc n)) = negative n

abbrev pub shallower : Depth → Depth
shallower (level zero) = negative zero
shallower (level (suc n)) = level n
shallower (negative n) = negative (suc n)

abbrev pub is_level : Depth → Bool
is_level (level zero) = true
is_level _ = false

-- The tree that the caller's pointer shows while blocks are open.
abbrev pub close_all : Config → List Config → Config
close_all c [] = c
close_all c (node ts cs ∷ below) = close_all (node ts (snoc cs c)) below

abbrev pub root : Stack → Config
root (popped c) = c
root (open_nodes c below) = close_all c below

pub record State : Type 0 where
  pub stack : Stack
  pub last : TokenType
  pub depth : Depth

-- How `ParseConfig` ends: with its result and the tree behind the caller's pointer, or in
-- undefined behaviour (`top()` or `pop()` of an empty stack, `back()` of no children). The model's
-- loop can also run out of rounds.
pub data Outcome : Type 0 where
  returned : Bool → Config → Outcome
  undefined : Outcome
  out_of_rounds : Outcome

-- What a round does: go on in a state, or end.
pub data Round : Type 0 where
  next : State → Round
  stop : Outcome → Round

abbrev break : State → Round
break s = stop (returned false (root s.stack))

-- The guards on `last_token_type`.
abbrev pub may_hold_word : TokenType → Bool
may_hold_word start = true
may_hold_word statement_end = true
may_hold_word start_block = true
may_hold_word end_block = true
may_hold_word normal = true
may_hold_word _ = false

abbrev pub may_close : TokenType → Bool
may_close statement_end = true
may_close end_block = true
may_close start_block = true
may_close _ = false

abbrev pub may_end : TokenType → Bool
may_end statement_end = true
may_end end_block = true
may_end start = true
may_end _ = false

abbrev pub is_normal : TokenType → Bool
is_normal normal = true
is_normal _ = false

-- `config_stack.top()->children_.emplace_back(new NginxConfig)`.
abbrev pub emplace : Config → Config
emplace (node ts cs) = node ts (snoc cs (node [] nil))

-- `children_.back().get()->tokens_.push_back(token)`.
abbrev pub push_back : Configs → Bytes → Option Configs
push_back nil token = none
push_back (cons (node ts ds) nil) token = some (cons (node (ts ++ token ∷ []) ds) nil)
push_back (cons c (cons d cs)) token = do rest ← push_back (cons d cs) token; some (cons c rest)

abbrev pub push_token : Config → Bytes → Option Config
push_token (node ts cs) token = do cs' ← push_back cs token; some (node ts cs')

-- `children_.back()`, taken out, and the children before it.
abbrev pub split_back : Configs → Option (Configs × Config)
split_back nil = none
split_back (cons c nil) = some (nil, c)
split_back (cons c (cons d cs)) = do
  (front, back) ← split_back (cons d cs)
  some (cons c front, back)

-- `token_type == TOKEN_TYPE_NORMAL`, past its guard, with the node on top of the stack.
abbrev add_word : State → Bytes → Config → List Config → Round
add_word s token top below =
    let parent = if is_normal s.last then top else emplace top in
    elim (push_token parent token) [
      | none ↦ stop undefined
      | some top' ↦ next (record s { stack = open_nodes top' below; last = normal })
    ]

-- `TOKEN_TYPE_START_BLOCK`, past its guard.
abbrev open_block : State → Config → List Config → Round
open_block s (node ts cs) below = elim (split_back cs) [
  | none ↦ stop undefined
  | some (front, back) ↦ next (record s {
    stack = open_nodes back (node ts front ∷ below);
    last = start_block;
    depth = deeper s.depth;
  })
]

-- `TOKEN_TYPE_END_BLOCK`, past its guard.
abbrev close_block : State → Config → List Config → Round
close_block s top [] =
    next (record { stack = popped top; last = end_block; depth = shallower s.depth })
close_block s top (node ts cs ∷ below) = next (record {
  stack = open_nodes (node ts (snoc cs top)) below;
  last = end_block;
  depth = shallower s.depth;
})

-- `top()` and `pop()` of an empty stack are undefined.
abbrev with_top : Stack → (Config → List Config → Round) → Round
with_top (popped _) k = stop undefined
with_top (open_nodes top below) k = k top below

-- The body of the loop, by the type of the token read.
unfoldable pub round : State → TokenType → Bytes → Round
round s error token = break s
round s comment token = next s
round s start token = break s
round s normal token = if may_hold_word s.last then with_top s.stack (add_word s token) else break s
round s statement_end token =
    if is_normal s.last then next (record s { last = statement_end }) else break s
round s start_block token = if is_normal s.last then with_top s.stack (open_block s) else break s
round s end_block token = if may_close s.last then with_top s.stack (close_block s) else break s
round s eof token =
    if may_end s.last then stop (returned (is_level s.depth) (root s.stack)) else break s

-- `while (true)`, in at most the given number of rounds.
unfoldable pub parse_loop : ℕ → State → Bytes → Outcome
unfolding round
parse_loop zero s input = out_of_rounds
parse_loop (suc n) s input =
    let token = parse_token input in
    elim (round s token.kind token.text) [
      | stop outcome ↦ outcome
      | next s' ↦ parse_loop n s' token.rest
    ]

abbrev pub initial : Config → State
initial config = record { stack = open_nodes config []; last = start; depth = level zero }

-- `ParseConfig`. A round that goes on reads a byte, so one round more than there are bytes do.
unfoldable pub parse_config : Bytes → Config → Outcome
unfolding parse_loop parse_token
parse_config input config = parse_loop (suc (length input)) (initial config) input

-- `ParseFile`: the argument is what the file holds, or `none` if it does not open.
unfoldable pub parse_file : Option Bytes → Config → Outcome
unfolding parse_config
parse_file none config = returned false config
parse_file (some input) config = parse_config input config
