-- ===== src/Config/Printer/RoundTrip.antt =====
-- `ParseConfig` on what `ToString` prints.
use caviar_hacker_grid.Base.{
  ℕ, zero, suc, true, List, [], ◌∷◌, ◌++◌, ◌≡◌, refl, sym, subst, append-nil, append_assoc,
}
use caviar_hacker_grid.Base.Text.{Bytes, codes}
use caviar_hacker_grid.Config.{Config, node, Configs, nil, cons}
use caviar_hacker_grid.Config.Lexer.{is_blank}
use caviar_hacker_grid.Config.Parser.{returned, parse_config}
use caviar_hacker_grid.Config.Grammar.{
  Gap, no_gap, blank, Delimited, Word, plain, quoted, Words, last_word, word, Statements, finish,
  simple, block,
}
use caviar_hacker_grid.Config.Grammar.Accepts.{parse_config-Statements}
use caviar_hacker_grid.Config.Printer.{
  indent, words, to_string_sub_block, children_to_string, to_string,
}

-- A word of the file format.
abbrev pub IsWord : Bytes → Type 0
IsWord t = Word t (codes " ")

-- A statement with at least one token, each a word.
pub data AreWords : List Bytes → Type 0 where
  one : {t : Bytes} → IsWord t → AreWords (t ∷ [])
  more : {t u : Bytes} {ts : List Bytes} → IsWord t → AreWords (u ∷ ts) → AreWords (t ∷ u ∷ ts)

-- A statement whose blocks, at every depth, hold one statement at most.
pub data IsChain : Config → Type 0 where
  leaf : {ts : List Bytes} → AreWords ts → IsChain (node ts nil)
  link : {ts : List Bytes} {d : Config} → AreWords ts → IsChain d → IsChain (node ts (cons d nil))

pub data AreChains : Configs → Type 0 where
  none_left : AreChains nil
  chain : {c : Config} {cs : Configs} → IsChain c → AreChains cs → AreChains (cons c cs)

Word-before : {t : Bytes} (rest : Bytes) → Delimited rest → IsWord t → Word t rest
Word-before rest d (plain h n _) = plain h n d
Word-before rest d (quoted w h n) = quoted w h n

indent-Gap : (n : ℕ) → Gap (indent n)
unfolding indent
indent-Gap zero = no_gap
indent-Gap (suc n) = blank refl (blank refl (indent-Gap n))

-- The printed tokens, with the gap `g` before the byte that ends the statement.
words-Words :
    {ending : ℕ} {t : Bytes} {ts : List Bytes} (g : Bytes)
    → Gap g
    → Delimited (g ++ ending ∷ [])
    → AreWords (t ∷ ts)
    → Words ending (t ∷ ts) (words (t ∷ ts) ++ g)
unfolding words
words-Words {ending} {t} g gap d (one h) =
    rw append-nil (last_word t g (Word-before (g ++ ending ∷ []) d h) gap)
words-Words {ending} {t} g gap d (more {u} {ts} h hs) = rw append_assoc (
    word t (b' ' ∷ []) (words (u ∷ ts) ++ g) (Word-before _ refl h) (blank refl no_gap)
      (words-Words g gap d hs))

-- A blank may stand before the statements.
Statements-blank :
    {cs : Configs} {x : Bytes} (c : ℕ) → is_blank c ≡ true → Statements cs x → Statements cs (c ∷ x)
Statements-blank c h (finish gap) = finish (blank h gap)
Statements-blank c h (simple g w x gap ws tail) = simple (c ∷ g) w x (blank h gap) ws tail
Statements-blank c h (block g w y x gap ws body tail) =
    block (c ∷ g) w y x (blank h gap) ws body tail

-- A printed statement in front of the text of others.
pub sub_block-Statements :
    (n : ℕ) {c : Config} {cs : Configs} {x : Bytes}
    → IsChain c
    → Statements cs x
    → Statements (cons c cs) (to_string_sub_block n c ++ x)
unfolding to_string_sub_block
sub_block-Statements n {cs} {x} (leaf {ts = t ∷ ts} h) tail =
    let text : (indent n ++ (words (t ∷ ts) ++ codes ";\n")) ++ x
        ≡ indent n ++ (words (t ∷ ts) ++ (b';' ∷ b'\n' ∷ x)) =
      simp append_assoc in
    subst (Statements (cons (node (t ∷ ts) nil) cs)) (sym text) (
      simple (indent n) (words (t ∷ ts)) (b'\n' ∷ x) (indent-Gap n)
        (rw append-nil at (words-Words {ending = b';'} [] no_gap refl h))
        (Statements-blank b'\n' refl tail))
sub_block-Statements n {cs} {x} (link {ts = t ∷ ts} {d} h inner) tail =
    let sub = to_string_sub_block (suc n) d in
    let text : (indent n
            ++ (words (t ∷ ts) ++ (codes " {\n" ++ (sub ++ (indent n ++ (codes "}\n" ++ []))))))
          ++ x
        ≡ indent n
          ++ ((words (t ∷ ts) ++ codes " ")
              ++ (b'{' ∷ ((b'\n' ∷ (sub ++ indent n)) ++ (b'}' ∷ b'\n' ∷ x)))) =
      simp append_assoc in
    subst (Statements (cons (node (t ∷ ts) (cons d nil)) cs)) (sym text) (
      block (indent n) (words (t ∷ ts) ++ codes " ") (b'\n' ∷ (sub ++ indent n)) (b'\n' ∷ x)
        (indent-Gap n) (words-Words (codes " ") (blank refl no_gap) refl h)
        (Statements-blank b'\n' refl (sub_block-Statements (suc n) inner (finish (indent-Gap n))))
        (Statements-blank b'\n' refl tail))
sub_block-Statements n (leaf {ts = []} h) tail = elim h [ ]
sub_block-Statements n (link {ts = []} h inner) tail = elim h [ ]

children-Statements :
    (n : ℕ) {cs : Configs} → AreChains cs → Statements cs (children_to_string n cs)
unfolding children_to_string
children-Statements n none_left = finish no_gap
children-Statements n (chain h hs) = sub_block-Statements n h (children-Statements n hs)

-- Parsing what `ToString` prints gives the tree back, if every statement has tokens, each a word, and no
-- block holds more than one statement.
pub parse_config-to_string :
    {cs : Configs}
    → AreChains cs
    → parse_config (to_string (node [] cs)) (node [] nil) ≡ returned true (node [] cs)
unfolding to_string
parse_config-to_string h = parse_config-Statements (children-Statements 0 h)
