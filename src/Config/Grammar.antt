-- ===== src/Config/Grammar.antt =====
-- The texts of a configuration tree: an account of the file format that does not mention the
-- parser's states. Words stand between gaps; a statement ends in `;` or holds a block in braces.
pub mod Reading
pub mod Rounds
pub mod Accepts
pub mod Edges
pub mod Fronts
pub mod Trails
pub mod Stops
pub mod Following
pub mod Pieces
pub mod Reads
pub mod Sound
pub mod Exact
use caviar_hacker_grid.Base.{ℕ, Bool, true, false, ◌||◌, List, [], ◌∷◌, ◌++◌, ◌==◌, ◌≡◌}
use caviar_hacker_grid.Base.Text.{Bytes, None}
use caviar_hacker_grid.Config.{Config, node, Configs, nil, cons}
use caviar_hacker_grid.Config.Lexer.{is_blank, ends_word}

abbrev pub is_line_end : ℕ → Bool
is_line_end c = c == b'\n' || c == b'\r'

-- Blanks and comments. A comment runs from `#` to the end of its line.
pub data Gap : Bytes → Type 0 where
  no_gap : Gap []
  blank : {c : ℕ} {g : Bytes} → is_blank c ≡ true → Gap g → Gap (c ∷ g)
  remark :
      (body : Bytes) {g : Bytes} (c : ℕ)
      → None is_line_end body
      → is_line_end c ≡ true
      → Gap g
      → Gap (b'#' ∷ (body ++ c ∷ g))

-- The bytes that cannot begin a plain word.
abbrev pub is_special : ℕ → Bool
is_special c =
    is_blank c || c == b';' || c == b'{' || c == b'}' || c == b'#' || c == b'"' || c == b'\''

-- A plain word has to be followed by a byte that ends it; a quoted word ends itself.
abbrev pub Delimited : Bytes → Type 0
Delimited [] = ⊥
Delimited (c ∷ rest) = ends_word c ≡ true

-- A word and what may follow it.
pub data Word : Bytes → Bytes → Type 0 where
  plain :
      {c : ℕ} {w rest : Bytes}
      → is_special c ≡ false
      → None ends_word w
      → Delimited rest
      → Word (c ∷ w) rest
  quoted :
      {q : ℕ} (w : Bytes) {rest : Bytes}
      → (q == b'"' || q == b'\'') ≡ true
      → None (λ c. c == q) w
      → Word (q ∷ (w ++ q ∷ [])) rest

-- The words of a statement with their gaps, up to the byte that ends the statement.
pub data Words (ending : ℕ) : List Bytes → Bytes → Type 0 where
  last_word : (t g : Bytes) → Word t (g ++ ending ∷ []) → Gap g → Words ending (t ∷ []) (t ++ g)
  word :
      (t g u : Bytes) {ts : List Bytes}
      → Word t (g ++ u)
      → Gap g
      → Words ending ts u
      → Words ending (t ∷ ts) (t ++ (g ++ u))

-- The texts of a list of statements.
pub data Statements : Configs → Bytes → Type 0 where
  finish : {g : Bytes} → Gap g → Statements nil g
  simple :
      (g w x : Bytes) {ts : List Bytes} {cs : Configs}
      → Gap g
      → Words b';' ts w
      → Statements cs x
      → Statements (cons (node ts nil) cs) (g ++ (w ++ (b';' ∷ x)))
  block :
      (g w y x : Bytes) {ts : List Bytes} {cs ds : Configs}
      → Gap g
      → Words b'{' ts w
      → Statements ds y
      → Statements cs x
      → Statements (cons (node ts ds) cs) (g ++ (w ++ (b'{' ∷ (y ++ (b'}' ∷ x)))))

-- What the end of the file may cut off behind the statements: a plain word, or a comment.
pub data Tail : Bytes → Type 0 where
  at_end : Tail []
  cut_word : {c : ℕ} {w : Bytes} → is_special c ≡ false → None ends_word w → Tail (c ∷ w)
  cut_comment : {body : Bytes} → None is_line_end body → Tail (b'#' ∷ body)

-- The texts of a configuration file.
pub record IsText (cs : Configs) (x : Bytes) : Type 0 where
  pub front : Bytes
  pub back : Bytes
  pub split : x ≡ front ++ back
  pub statements : Statements cs front
  pub tail : Tail back
