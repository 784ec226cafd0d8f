-- ===== src/Config/Tests.antt =====
-- Tests of the lexer, the parser and the searches, and the theorems of this part at concrete inputs.
use caviar_hacker_grid.Base.{true, false, [], ◌∷◌, ◌++◌, some, ◌≡◌, ◌≢◌, refl, List, ◌↔◌}
use caviar_hacker_grid.Base.Text.{Bytes, codes}
use caviar_hacker_grid.Config.{
  Config, Configs, node, nil, cons, children, find_all, find_block, find_tokens,
}
use caviar_hacker_grid.Config.Grammar.{
  no_gap, blank, plain, Words, last_word, Statements, finish, simple, block, IsText,
}
use caviar_hacker_grid.Config.Grammar.Edges.{parse_config_drops_last_word, parse_config_stray_brace}
use caviar_hacker_grid.Config.Lexer.{normal}
use caviar_hacker_grid.Config.Parser.{
  returned, undefined, out_of_rounds, initial, round, parse_config,
}
use caviar_hacker_grid.Config.Parser.Invariant.{After, initial-Inv, round-Inv}
use caviar_hacker_grid.Config.Parser.Named.{parse_config-AreNamed}
use caviar_hacker_grid.Config.Parser.Progress.{parse_config_total}
use caviar_hacker_grid.Config.Printer.{to_string}
use caviar_hacker_grid.Config.Printer.Blocks.{parse_config-to_string_siblings}
use caviar_hacker_grid.Config.Printer.RoundTrip.{
  IsWord, one, more, IsChain, leaf, link, none_left, chain, parse_config-to_string,
}
use caviar_hacker_grid.Config.Grammar.Exact.{parse_config_iff}
use caviar_hacker_grid.Config.Search.{matching, first, first_tokens, find_lem}
use caviar_hacker_grid.Config.Trees.{AreNamed}

abbrev empty : Config
empty = node [] nil

abbrev sample : Bytes
sample = codes "# a server\nport 80;\npath /s StaticHandler {\n  root \"/a b\";\n}\n"

abbrev sample_tree : Config
sample_tree = node [] (
    cons (node (codes "port" ∷ codes "80" ∷ []) nil) (
      cons
        (node (codes "path" ∷ codes "/s" ∷ codes "StaticHandler" ∷ [])
          (cons (node (codes "root" ∷ codes "\"/a b\"" ∷ []) nil) nil))
        nil))

parse_sample : parse_config sample empty ≡ returned true sample_tree
unfolding parse_config
parse_sample = refl

-- A word that runs into the end of the file is dropped; one that is alone in its statement is
-- not missed.
dropped_word :
    parse_config (codes "port 80; default") empty
    ≡ returned true (node [] (cons (node (codes "port" ∷ codes "80" ∷ []) nil) nil))
unfolding parse_config
dropped_word = refl

stray_brace : parse_config (codes "a;}b;") empty ≡ undefined
unfolding parse_config
stray_brace = refl

-- A statement of one plain word of one byte.
Words-a : Words b';' (codes "a" ∷ []) (codes "a")
Words-a = last_word (codes "a") [] (plain refl tt refl) no_gap

Words-b : Words b'{' (codes "b" ∷ []) (codes "b ")
Words-b = last_word (codes "b") (codes " ") (plain refl tt refl) (blank refl no_gap)

abbrev nested_tree : Configs
nested_tree =
    cons (node (codes "b" ∷ []) (cons (node (codes "a" ∷ []) nil) nil))
      (cons (node (codes "a" ∷ []) nil) nil)

Statements-nested : Statements nested_tree (codes "b {a;}a;")
Statements-nested = block [] (codes "b ") (codes "a;") (codes "a;") no_gap Words-b one_a one_a
  where
    one_a : Statements (cons (node (codes "a" ∷ []) nil) nil) (codes "a;")
    one_a = simple [] (codes "a") [] no_gap Words-a (finish no_gap)

abbrev no_tokens : List Bytes
no_tokens = []

parse_config_iff_example :
    (parse_config sample empty ≡ returned true (node no_tokens (children sample_tree)))
    ↔ ((no_tokens ≡ []) × IsText (children sample_tree) sample)
parse_config_iff_example = parse_config_iff no_tokens (children sample_tree) sample

sample-IsText : IsText (children sample_tree) sample
sample-IsText = (parse_config_iff_example.0 parse_sample).1

parse_config_total_example : parse_config sample empty ≢ out_of_rounds
parse_config_total_example = parse_config_total sample empty

IsWord-short : IsWord (codes "a")
IsWord-short = plain refl tt refl

IsWord-long : IsWord (codes "bc")
IsWord-long = plain refl (refl, tt) refl

IsChain-pair : IsChain (node (codes "a" ∷ codes "bc" ∷ []) nil)
IsChain-pair = leaf (more IsWord-short (one IsWord-long))

parse_config-to_string_example :
    parse_config
      (to_string (
        node []
          (cons (node (codes "bc" ∷ []) (cons (node (codes "a" ∷ codes "bc" ∷ []) nil) nil)) nil)))
      (node [] nil)
    ≡ returned true (
        node []
          (cons (node (codes "bc" ∷ []) (cons (node (codes "a" ∷ codes "bc" ∷ []) nil) nil)) nil))
parse_config-to_string_example =
    parse_config-to_string (chain (link (one IsWord-long) IsChain-pair) none_left)

parse_config-to_string_siblings_example :
    parse_config
      (to_string (
        node [] (
          cons
            (node (codes "a" ∷ []) (
              cons (node (codes "a" ∷ codes "bc" ∷ []) nil) (cons (node (codes "a" ∷ []) nil) nil)))
            nil)))
      (node [] nil)
    ≡ returned false (
        node []
          (cons (node (codes "a" ∷ []) (cons (node (codes "a" ∷ codes "bc" ∷ []) nil) nil)) nil))
parse_config-to_string_siblings_example =
    parse_config-to_string_siblings (node (codes "a" ∷ []) nil) nil nil (one IsWord-short)
      IsChain-pair

parse_config-sample_tree :
    parse_config sample (node [] nil) ≡ returned true (node [] (children sample_tree))
parse_config-sample_tree = parse_sample

sample-AreNamed : AreNamed (children sample_tree)
sample-AreNamed =
    parse_config-AreNamed sample true [] (children sample_tree) parse_config-sample_tree

parse_config-AreNamed_example : AreNamed (children sample_tree)
parse_config-AreNamed_example =
    parse_config-AreNamed sample true [] (children sample_tree) parse_config-sample_tree

round-Inv_example :
    After (initial (node [] nil)) (round (initial (node [] nil)) normal (codes "port"))
round-Inv_example = round-Inv (initial (node [] nil)) normal (codes "port") initial-Inv

find_lem_example :
    (find_all (codes "path") (children sample_tree)
      ≡ some (matching (codes "path") (children sample_tree)))
    × (find_block (codes "path") (children sample_tree)
        ≡ some (first (matching (codes "path") (children sample_tree))))
    × (find_tokens (codes "path") (children sample_tree)
        ≡ some (first_tokens (matching (codes "path") (children sample_tree))))
find_lem_example = find_lem (codes "path") sample-AreNamed

parse_config_drops_last_word_example :
    parse_config (codes "b {a;}a;" ++ codes "cd") (node [] nil)
    ≡ returned true (node [] nested_tree)
parse_config_drops_last_word_example =
    parse_config_drops_last_word b'c' (codes "d") Statements-nested refl (refl, tt)

parse_config_stray_brace_example :
    parse_config (codes "b {a;}a;" ++ codes "}a;") (node [] nil) ≡ undefined
parse_config_stray_brace_example =
    parse_config_stray_brace {t = codes "a"} {rest = codes ";"} Statements-nested
      (plain refl tt refl)
