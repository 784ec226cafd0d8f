-- ===== src/Config/Printer.antt =====
-- nginx-configparser/config_parser.cc, `NginxConfig::ToString` and `ToStringSubBlock`.
pub mod RoundTrip
pub mod Blocks
use caviar_hacker_grid.Base.{ℕ, zero, suc, List, [], ◌∷◌, ◌++◌}
use caviar_hacker_grid.Base.Text.{Bytes, codes}
use caviar_hacker_grid.Config.{Config, node, Configs, nil, cons}

-- `for (int i = 0; i < tabLevel; ++i) append("  ")`.
unfoldable pub indent : ℕ → Bytes
indent zero = []
indent (suc n) = codes "  " ++ indent n

-- The tokens, with a space before each but the first.
unfoldable pub spaced : List Bytes → Bytes
spaced [] = []
spaced (t ∷ ts) = codes " " ++ (t ++ spaced ts)

unfoldable pub words : List Bytes → Bytes
unfolding spaced
words [] = []
words (t ∷ ts) = t ++ spaced ts

-- Each child stands in a pair of braces of its own.
unfoldable mutual
  unfolding indent words

  pub to_string_sub_block : ℕ → Config → Bytes
  to_string_sub_block tab_level (node ts nil) = indent tab_level ++ (words ts ++ codes ";\n")
  to_string_sub_block tab_level (node ts (cons c cs)) =
      indent tab_level ++ (words ts ++ braced tab_level (cons c cs))

  -- The loop over `children_` there.
  pub braced : ℕ → Configs → Bytes
  braced tab_level nil = []
  braced tab_level (cons c cs) =
      codes " {\n"
      ++ (to_string_sub_block (suc tab_level) c
          ++ (indent tab_level ++ (codes "}\n" ++ braced tab_level cs)))

-- `ToString`: the children of a tree, one after the other.
unfoldable pub children_to_string : ℕ → Configs → Bytes
unfolding to_string_sub_block
children_to_string tab_level nil = []
children_to_string tab_level (cons c cs) =
    to_string_sub_block tab_level c ++ children_to_string tab_level cs

unfoldable pub to_string : Config → Bytes
unfolding children_to_string
to_string (node ts cs) = children_to_string 0 cs
