-- ===== src/Config/Grammar/Accepts.antt =====
-- `ParseConfig` on the texts of the grammar.
use caviar_hacker_grid.Base.{
  ℕ, suc, true, false, List, [], ◌∷◌, ◌++◌, ◌≡◌, refl, sym, ap, ◌∙◌, arith, append-nil,
  append_assoc,
}
use caviar_hacker_grid.Base.Text.{Bytes}
use caviar_hacker_grid.Config.{Config, node, Configs, nil, cons, snoc, concat}
use caviar_hacker_grid.Config.Lexer.{
  TokenType, start, normal, start_block, end_block, statement_end, parse_token,
}
use caviar_hacker_grid.Config.Parser.{
  level, returned, round, is_normal, may_hold_word, may_close, may_end, initial, parse_config,
  parse_loop,
}
use caviar_hacker_grid.Config.Parser.Progress.{run, run_token}
use caviar_hacker_grid.Config.Parser.Rounds.{at, round_first_word, round_open, round_close}
use caviar_hacker_grid.Config.Trees.{concat-snoc, concat-nil}
use caviar_hacker_grid.Config.Grammar.{Gap, Words, Statements, finish, simple, block}
use caviar_hacker_grid.Config.Grammar.Rounds.{run-Gap, run-Words}

-- The token types behind which a statement may begin.
pub record IsReady (last : TokenType) : Type 0 where
  pub holds : may_hold_word last ≡ true
  pub fresh : is_normal last ≡ false

-- Behind at least one statement a `}` is taken.
abbrev pub Closable : Configs → TokenType → Type 0
Closable nil last = Unit
Closable (cons _ _) last = may_close last ≡ true

-- What a statement does to the guards of `}` and of the end of the file.
pub record Keeps (last last' : TokenType) : Type 0 where
  pub closes : may_close last ≡ true → may_close last' ≡ true
  pub ends : may_end last ≡ true → may_end last' ≡ true

pub statement_end-IsReady : IsReady statement_end
statement_end-IsReady = record { holds = refl; fresh = refl }

pub end_block-IsReady : IsReady end_block
end_block-IsReady = record { holds = refl; fresh = refl }

pub start-IsReady : IsReady start
start-IsReady = record { holds = refl; fresh = refl }

pub start_block-IsReady : IsReady start_block
start_block-IsReady = record { holds = refl; fresh = refl }

pub run_semicolon :
    (top : Config) (below : List Config) (n : ℕ) (rest : Bytes)
    → run (at top below normal (level n)) (b';' ∷ rest)
      ≡ run (at top below statement_end (level n)) rest
unfolding round parse_token
run_semicolon top below n rest =
    run_token _ _ (b';' ∷ rest) (b';' ∷ []) rest statement_end refl (omega arith) refl

pub run_open_brace :
    (us : List Bytes) (cs : Configs) (d : Config) (below : List Config) (n : ℕ) (rest : Bytes)
    → run (at (node us (snoc cs d)) below normal (level n)) (b'{' ∷ rest)
      ≡ run (at d (node us cs ∷ below) start_block (level (suc n))) rest
unfolding parse_token
run_open_brace us cs d below n rest =
    run_token (at (node us (snoc cs d)) below normal (level n))
      (at d (node us cs ∷ below) start_block (level (suc n))) (b'{' ∷ rest) (b'{' ∷ []) rest
      start_block refl (omega arith) (round_open us cs below (level n) d (b'{' ∷ []))

pub run_close_brace :
    (us : List Bytes) (cs : Configs) (d : Config) (below : List Config) (n : ℕ) (last : TokenType)
    (rest : Bytes)
    → may_close last ≡ true
    → run (at d (node us cs ∷ below) last (level (suc n))) (b'}' ∷ rest)
      ≡ run (at (node us (snoc cs d)) below end_block (level n)) rest
unfolding parse_token
run_close_brace us cs d below n last rest h =
    run_token (at d (node us cs ∷ below) last (level (suc n)))
      (at (node us (snoc cs d)) below end_block (level n)) (b'}' ∷ rest) (b'}' ∷ []) rest end_block
      refl (omega arith) (round_close us cs below (level (suc n)) d last (b'}' ∷ []) h)

-- The words of a statement, behind a gap, become the tokens of a new child.
run_statement-Words :
    {ending : ℕ} {g w : Bytes} {ts : List Bytes} (u : Bytes) (us : List Bytes) (cs : Configs)
    (below : List Config) (n : ℕ) (last : TokenType) (rest : Bytes)
    → IsReady last
    → Gap g
    → Words ending ts w
    → run (at (node us cs) below last (level n)) ((g ++ (w ++ (ending ∷ u))) ++ rest)
      ≡ run (at (node us (snoc cs (node ts nil))) below normal (level n)) (ending ∷ (u ++ rest))
run_statement-Words {ending} {g} {w} u us cs below n last rest r gap words =
    let s = at (node us cs) below last (level n) in
    ap (run s) (append_assoc g (w ++ (ending ∷ u)) rest)
    ∙ run-Gap s ((w ++ (ending ∷ u)) ++ rest) gap
    ∙ ap (run s) (append_assoc w (ending ∷ u) rest)
    ∙ run-Words us cs below n s [] (u ++ rest)
        (λ t. round_first_word us cs below (level n) last t r.holds r.fresh) words

-- The statements of the text become children of the open node, in order.
pub run_statements :
    {ds : Configs} {x : Bytes} (us : List Bytes) (cs : Configs) (below : List Config) (n : ℕ)
    (last : TokenType) (rest : Bytes)
    → IsReady last
    → Statements ds x
    → (last' : TokenType) × IsReady last'
      × Keeps last last'
      × Closable ds last'
      × (run (at (node us cs) below last (level n)) (x ++ rest)
          ≡ run (at (node us (concat cs ds)) below last' (level n)) rest)
run_statements us cs below n last rest r (finish gap) = (
  last,
  r,
  record { closes = λ h. h; ends = λ h. h },
  tt,
  run-Gap _ rest gap
      ∙ ap (λ c. run (at (node us c) below last (level n)) rest) (sym (concat-nil cs)),
)
run_statements us cs below n last rest r (simple g w x {ts} {cs = ds} gap words more) =
    let (last', r', k, _, e) =
      run_statements us (snoc cs (node ts nil)) below n statement_end rest statement_end-IsReady
        more in
    (
      last',
      r',
      record { closes = λ _. k.closes refl; ends = λ _. k.ends refl },
      k.closes refl,
      run_statement-Words x us cs below n last rest r gap words
          ∙ run_semicolon (node us (snoc cs (node ts nil))) below n (x ++ rest)
          ∙ e
          ∙ ap (λ c. run (at (node us c) below last' (level n)) rest)
              (concat-snoc cs (node ts nil) ds),
    )
run_statements us cs below n last rest r
      (block g w y x {ts} {cs = ds} {ds = inner} gap words body more) =
    let (last₁, r₁, k₁, _, e₁) =
      run_statements ts nil (node us cs ∷ below) (suc n) start_block (b'}' ∷ (x ++ rest))
        start_block-IsReady body in
    let (last', r', k, _, e) =
      run_statements us (snoc cs (node ts inner)) below n end_block rest end_block-IsReady more in
    (
      last',
      r',
      record { closes = λ _. k.closes refl; ends = λ _. k.ends refl },
      k.closes refl,
      run_statement-Words (y ++ (b'}' ∷ x)) us cs below n last rest r gap words
          ∙ run_open_brace us cs (node ts nil) below n ((y ++ (b'}' ∷ x)) ++ rest)
          ∙ ap (run _) (append_assoc y (b'}' ∷ x) rest)
          ∙ e₁
          ∙ run_close_brace us cs (node ts inner) below n last₁ (x ++ rest) (k₁.closes refl)
          ∙ e
          ∙ ap (λ c. run (at (node us c) below last' (level n)) rest)
              (concat-snoc cs (node ts inner) ds),
    )

pub run-end_of_file :
    (us : List Bytes) (cs : Configs) (last : TokenType)
    → may_end last ≡ true
    → run (at (node us cs) [] last (level 0)) [] ≡ returned true (node us cs)
unfolding parse_loop parse_token
run-end_of_file us cs last h = rw h

-- `ParseConfig` accepts every text of the grammar, and builds the tree that the text stands for.
pub parse_config-Statements :
    {cs : Configs} {x : Bytes}
    → Statements cs x
    → parse_config x (node [] nil) ≡ returned true (node [] cs)
unfolding parse_config
parse_config-Statements {cs} {x} h =
    let (last, r, k, _, e) = run_statements [] nil [] 0 start [] start-IsReady h in
    ap (run (initial (node [] nil))) (sym (append-nil x))
    ∙ e
    ∙ run-end_of_file [] cs last (k.ends refl)
