-- ===== src/Config/Parser/Progress.antt =====
-- The rounds of `ParseConfig` are bounded by the bytes of the file, and how many are allowed beyond
-- that makes no difference.
use caviar_hacker_grid.Base.{
  ℕ, zero, suc, ◌≤◌, ◌<◌, [], ◌∷◌, ◌≡◌, ◌≢◌, refl, arith, length, Bool-cases, inl, inr, false, ap,
  ◌∙◌, sym,
}
use caviar_hacker_grid.Base.Text.{Bytes}
use caviar_hacker_grid.Config.{Config}
use caviar_hacker_grid.Config.Lexer.{
  TokenParserState, initial_whitespace, single_quote, double_quote, in_comment, in_normal,
  TokenType, Step, continue, return, unget, step, scan, parse_token, Token, eof,
}
use caviar_hacker_grid.Config.Parser.{
  State, Outcome, may_end, returned, is_level, root, out_of_rounds, Round, next, stop, round,
  parse_loop, initial, parse_config,
}

data Stepped (s : Step) : Type 0 where
  continues : (state : TokenParserState) (value : Bytes) → s ≡ continue state value → Stepped s
  returns : (kind : TokenType) (value : Bytes) → s ≡ return kind value → Stepped s
  ungets : (kind : TokenType) (value : Bytes) → s ≡ unget kind value → Stepped s

Step-cases : (s : Step) → Stepped s
Step-cases (continue state value) = continues state value refl
Step-cases (return kind value) = returns kind value refl
Step-cases (unget kind value) = ungets kind value refl

length-scan :
    (state : TokenParserState) (value input : Bytes)
    → length (scan state value input).rest ≤ length input
unfolding scan
length-scan state value [] = omega arith
length-scan state value (c ∷ input) = elim (Step-cases (step state value c)) [
  | continues state' value' e ↦ rw (scan, e) (omega (arith, length-scan state' value' input))
  | returns kind value' e ↦ rw (scan, e) (omega arith)
  | ungets kind value' e ↦ rw (scan, e) (omega arith)
]

-- The first byte is never put back.
length-parse_token : (c : ℕ) (input : Bytes) → length (parse_token (c ∷ input)).rest ≤ length input
unfolding parse_token
length-parse_token c input = ground (
  arith,
  length-scan initial_whitespace [] input,
  length-scan single_quote (c ∷ []) input,
  length-scan double_quote (c ∷ []) input,
  length-scan in_comment (c ∷ []) input,
  length-scan in_normal (c ∷ []) input,
)

-- At the end of the stream a round stops.
round_at_end :
    (s : State) → (o : Outcome) × (round s (parse_token []).kind (parse_token []).text ≡ stop o)
unfolding round parse_token
round_at_end s = elim (Bool-cases (may_end s.last)) [
  | inl e ↦ (returned (is_level s.depth) (root s.stack), rw e)
  | inr e ↦ (returned false (root s.stack), rw e)
]

-- No round ends the loop for want of rounds.
round-ne-out_of_rounds :
    (s : State) (kind : TokenType) (token : Bytes) → round s kind token ≢ stop out_of_rounds
unfolding round
round-ne-out_of_rounds s kind token = ground arith

pub data Rounded (r : Round) : Type 0 where
  goes : (s : State) → r ≡ next s → Rounded r
  stops : (o : Outcome) → r ≡ stop o → Rounded r

pub Round-cases : (r : Round) → Rounded r
Round-cases (next s) = goes s refl
Round-cases (stop o) = stops o refl

parse_loop_total :
    (n : ℕ) (s : State) (input : Bytes) → length input < n → parse_loop n s input ≢ out_of_rounds
unfolding parse_loop
parse_loop_total zero s input h = elim h [ ]
parse_loop_total (suc n) s [] h =
    let (o, e) = round_at_end s in
    rw (parse_loop, e) (λ w. round-ne-out_of_rounds s _ (parse_token []).text (e ∙ ap stop w))
parse_loop_total (suc n) s (c ∷ input) h =
    let t = parse_token (c ∷ input) in
    elim (Round-cases (round s t.kind t.text)) [
      | goes s' e ↦
          rw (parse_loop, e)
            (parse_loop_total n s' t.rest (omega (arith, length-parse_token c input)))
      | stops o e ↦ rw (parse_loop, e) (λ w. round-ne-out_of_rounds s t.kind t.text (e ∙ ap stop w))
    ]

-- Two numbers of rounds that both suffice give one outcome.
parse_loop_rounds :
    (n m : ℕ) (s : State) (input : Bytes)
    → length input < n
    → length input < m
    → parse_loop n s input ≡ parse_loop m s input
unfolding parse_loop
parse_loop_rounds zero m s input h k = elim h [ ]
parse_loop_rounds (suc n) zero s input h k = elim k [ ]
parse_loop_rounds (suc n) (suc m) s [] h k = let (o, e) = round_at_end s in rw (parse_loop, e)
parse_loop_rounds (suc n) (suc m) s (c ∷ input) h k =
    let t = parse_token (c ∷ input) in
    elim (Round-cases (round s t.kind t.text)) [
      | goes s' e ↦
          rw (parse_loop, e)
            (parse_loop_rounds n m s' t.rest (omega (arith, length-parse_token c input))
              (omega (arith, length-parse_token c input)))
      | stops o e ↦ rw (parse_loop, e)
    ]

-- `ParseConfig` returns, or meets undefined behaviour, on every file.
pub parse_config_total :
    (input : Bytes) (config : Config) → parse_config input config ≢ out_of_rounds
unfolding parse_config
parse_config_total input config =
    parse_loop_total (suc (length input)) (initial config) input (omega arith)

-- The loop with as many rounds as the rest of the file can take.
abbrev pub run : State → Bytes → Outcome
run s input = parse_loop (suc (length input)) s input

-- The loop behind a token that has been read.
abbrev after : ℕ → State → Token → Outcome
after n s token = elim (round s token.kind token.text) [
  | stop outcome ↦ outcome
  | next s' ↦ parse_loop n s' token.rest
]

parse_loop-suc :
    (n : ℕ) (s : State) (input : Bytes) → parse_loop (suc n) s input ≡ after n s (parse_token input)
unfolding parse_loop
parse_loop-suc n s input = refl

after_next :
    (n : ℕ) (s s' : State) (text rest : Bytes) (kind : TokenType)
    → round s kind text ≡ next s'
    → after n s (record { kind = kind; text = text; rest = rest }) ≡ parse_loop n s' rest
after_next n s s' text rest kind e = rw (e, after)

-- A round that goes on, with the bytes behind its token.
pub run_token :
    (s s' : State) (input text rest : Bytes) (kind : TokenType)
    → parse_token input ≡ record { kind = kind; text = text; rest = rest }
    → length rest < length input
    → round s kind text ≡ next s'
    → run s input ≡ run s' rest
run_token s s' input text rest kind t h e =
    parse_loop-suc (length input) s input
    ∙ ap (after (length input) s) t
    ∙ after_next (length input) s s' text rest kind e
    ∙ parse_loop_rounds (length input) (suc (length rest)) s' rest h (omega arith)

-- A blank before the token makes no difference.
pub run_skip :
    (s : State) (c : ℕ) (input : Bytes)
    → parse_token (c ∷ input) ≡ parse_token input
    → run s (c ∷ input) ≡ run s input
run_skip s c input e =
    let n = length input in
    parse_loop-suc (suc n) s (c ∷ input)
    ∙ ap (after (suc n) s) e
    ∙ sym (parse_loop-suc (suc n) s input)
    ∙ parse_loop_rounds (suc (suc n)) (suc n) s input (omega arith) (omega arith)

-- A round that ends the loop.
pub run_token_stop :
    (s : State) (o : Outcome) (input text rest : Bytes) (kind : TokenType)
    → parse_token input ≡ record { kind = kind; text = text; rest = rest }
    → round s kind text ≡ stop o
    → run s input ≡ o
run_token_stop s o input text rest kind t e =
    parse_loop-suc (length input) s input ∙ ap (after (length input) s) t ∙ rw (e, after)

-- Bytes that hold no token before the end of the file make no difference.
pub run_to_end :
    (s : State) (input text : Bytes)
    → parse_token input ≡ record { kind = eof; text = text; rest = [] }
    → run s input ≡ run s []
unfolding round parse_token
run_to_end s input text t = elim (Bool-cases (may_end s.last)) [
  | inl e ↦
      run_token_stop s (returned (is_level s.depth) (root s.stack)) input text [] eof t (rw e)
      ∙ sym (run_token_stop s (returned (is_level s.depth) (root s.stack)) [] [] [] eof refl (rw e))
  | inr e ↦
      run_token_stop s (returned false (root s.stack)) input text [] eof t (rw e)
      ∙ sym (run_token_stop s (returned false (root s.stack)) [] [] [] eof refl (rw e))
]
