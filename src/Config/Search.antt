-- ===== src/Config/Search.antt =====
-- The searches by key over trees in which every statement has a word, as `ParseConfig` builds them.
use caviar_hacker_grid.Base.{List, [], ◌∷◌, Option, none, some, ◌≡◌, refl, if◌then◌else◌, arith}
use caviar_hacker_grid.Base.Text.{Bytes, equal}
use caviar_hacker_grid.Config.{
  Config, node, Configs, nil, cons, tokens, find_block, find_tokens, find_all,
}
use caviar_hacker_grid.Config.Trees.{AreNamed, none_left, named}

-- The statements whose first word is the key, in order.
abbrev pub matching : Bytes → Configs → List Config
matching key nil = []
matching key (cons (node [] ds) cs) = matching key cs
matching key (cons (node (t ∷ ts) ds) cs) =
    let rest = matching key cs in if equal t key then node (t ∷ ts) ds ∷ rest else rest

abbrev pub first : List Config → Option Config
first [] = none
first (c ∷ cs) = some c

abbrev pub first_tokens : List Config → List Bytes
first_tokens [] = []
first_tokens (c ∷ cs) = tokens c

-- In a tree whose statements all have words, no search reads past the end of a vector: `findAll` gives the statements with the
-- key in order; the two forms of `find` give the first of them, and its tokens.
pub find_lem :
    (key : Bytes) {cs : Configs}
    → AreNamed cs
    → (find_all key cs ≡ some (matching key cs))
      × (find_block key cs ≡ some (first (matching key cs)))
      × (find_tokens key cs ≡ some (first_tokens (matching key cs)))
unfolding find_all find_block find_tokens
find_lem key none_left = (refl, refl, refl)
find_lem key (named {t} a b) = ground (arith, find_lem key b)
