-- ===== src/Config/Lexer.antt =====
-- nginx-configparser/config_parser.cc, `ParseToken`. The stream is the list of bytes not yet read;
-- the empty list is a stream that is no longer good.
use caviar_hacker_grid.Base.{ℕ, Bool, ◌||◌, [], ◌∷◌, ◌++◌, ◌==◌, if◌then◌else◌}
use caviar_hacker_grid.Base.Text.{Bytes}

-- `enum TokenType`.
pub data TokenType : Type 0 where
  start normal start_block end_block comment statement_end eof error : TokenType

-- `enum TokenParserState`.
pub data TokenParserState : Type 0 where
  initial_whitespace single_quote double_quote in_comment in_normal : TokenParserState

-- What one byte makes of the loop: `continue` with a state and a value, or `return` with the
-- byte read or put back by `unget`.
pub data Step : Type 0 where
  continue : TokenParserState → Bytes → Step
  return : TokenType → Bytes → Step
  unget : TokenType → Bytes → Step

abbrev pub is_blank : ℕ → Bool
is_blank c = c == b' ' || c == b'\t' || c == b'\n' || c == b'\r'

-- The bytes that end a word. The source tests `'\t'` twice and `'\r'` not at all.
abbrev pub ends_word : ℕ → Bool
ends_word c =
    c == b' ' || c == b'\t' || c == b'\n' || c == b'\t' || c == b';' || c == b'{' || c == b'}'

-- `case TOKEN_STATE_INITIAL_WHITESPACE`.
step_initial : Bytes → ℕ → Step
step_initial value c =
    if c == b'{'
    then return start_block (c ∷ [])
    else if c == b'}'
    then return end_block (c ∷ [])
    else if c == b'#'
    then continue in_comment (c ∷ [])
    else if c == b'"'
    then continue double_quote (c ∷ [])
    else if c == b'\''
    then continue single_quote (c ∷ [])
    else if c == b';'
    then return statement_end (c ∷ [])
    else if is_blank c
    then continue initial_whitespace value
    else continue in_normal (value ++ c ∷ [])

unfoldable pub step : TokenParserState → Bytes → ℕ → Step
unfolding step_initial
step initial_whitespace value c = step_initial value c
step single_quote value c =
    let value' = value ++ c ∷ [] in
    if c == b'\'' then return normal value' else continue single_quote value'
step double_quote value c =
    let value' = value ++ c ∷ [] in
    if c == b'"' then return normal value' else continue double_quote value'
step in_comment value c =
    if c == b'\n' || c == b'\r' then return comment value else continue in_comment (value ++ c ∷ [])
step in_normal value c =
    if ends_word c then unget normal value else continue in_normal (value ++ c ∷ [])

-- The token found, its text, and the bytes left in the stream.
pub record Token : Type 0 where
  pub kind : TokenType
  pub text : Bytes
  pub rest : Bytes

-- The end of the stream, behind the loop.
abbrev at_eof : TokenParserState → TokenType
at_eof single_quote = error
at_eof double_quote = error
at_eof _ = eof

unfoldable pub scan : TokenParserState → Bytes → Bytes → Token
scan state value [] = record { kind = at_eof state; text = value; rest = [] }
scan state value (c ∷ input) = elim (step state value c) [
  | continue state' value' ↦ scan state' value' input
  | return kind value' ↦ record { kind = kind; text = value'; rest = input }
  | unget kind value' ↦ record { kind = kind; text = value'; rest = c ∷ input }
]

-- `ParseToken`, called with an empty string for the value.
unfoldable pub parse_token : Bytes → Token
unfolding scan step
parse_token = scan initial_whitespace []
