-- ===== src/Config.antt =====
-- nginx-configparser/config_parser.h: the tree of an NginxConfig, and the searches of its children.
-- `children_` holds no null pointers: the only code that adds a child stores `new NginxConfig`.
pub mod Lexer
pub mod Parser
pub mod Trees
pub mod Search
pub mod Printer
pub mod Grammar
mod Tests
use caviar_hacker_grid.Base.{List, [], ◌∷◌, ◌++◌, Option, none, some, ◌>>=◌, if◌then◌else◌}
use caviar_hacker_grid.Base.Text.{Bytes, equal}

-- `class NginxConfig`: the tokens of a statement, and the statements of its block.
mutual
  pub data Config : Type 0 where
    node : List Bytes → Configs → Config

  pub data Configs : Type 0 where
    nil : Configs
    cons : Config → Configs → Configs

abbrev pub tokens : Config → List Bytes
tokens (node ts _) = ts

abbrev pub children : Config → Configs
children (node _ cs) = cs

abbrev pub to_list : Configs → List Config
to_list nil = []
to_list (cons c cs) = c ∷ to_list cs

-- `children_.emplace_back`.
abbrev pub snoc : Configs → Config → Configs
snoc nil d = cons d nil
snoc (cons c cs) d = cons c (snoc cs d)

abbrev pub concat : Configs → Configs → Configs
concat nil ds = ds
concat (cons c cs) ds = cons c (concat cs ds)

-- `tokens_[0]`; `none` is the read past the end of an empty vector.
abbrev pub first_token : Config → Option Bytes
first_token (node [] _) = none
first_token (node (t ∷ _) _) = some t

-- `find(key, value)`: the first child whose first token is the key. The outer `none` is an
-- undefined read, the inner one the result `false`, which leaves `value` alone.
unfoldable pub find_block : Bytes → Configs → Option (Option Config)
find_block key nil = some none
find_block key (cons child cs) = do
  head ← first_token child
  if equal head key then some (some child) else find_block key cs

-- `find(key)`: the tokens of that child, or no tokens.
unfoldable pub find_tokens : Bytes → Configs → Option (List Bytes)
find_tokens key nil = some []
find_tokens key (cons child cs) = do
  head ← first_token child
  if equal head key then some (tokens child) else find_tokens key cs

-- `findAll(key)`: every such child, in order.
unfoldable pub find_all : Bytes → Configs → Option (List Config)
find_all key nil = some []
find_all key (cons child cs) = do
  head ← first_token child
  rest ← find_all key cs
  some (if equal head key then child ∷ rest else rest)
