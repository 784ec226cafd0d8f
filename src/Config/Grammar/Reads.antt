-- ===== src/Config/Grammar/Reads.antt =====
-- A statement at the front of a file that `ParseConfig` accepts.
use caviar_hacker_grid.Base.{
  ℕ, suc, ◌<◌, true, List, [], ◌∷◌, ◌++◌, ◌≡◌, inl, inr, ap, sym, ◌∙◌, arith, append_assoc, length,
  length-append, subst, ◌≤◌,
}
use caviar_hacker_grid.Base.Text.{Bytes}
use caviar_hacker_grid.Config.{Config, node, Configs, nil, snoc}
use caviar_hacker_grid.Config.Lexer.{TokenType, start_block, end_block, statement_end}
use caviar_hacker_grid.Config.Parser.{level, returned}
use caviar_hacker_grid.Config.Parser.Progress.{run}
use caviar_hacker_grid.Config.Parser.Rounds.{at, round_first_word}
use caviar_hacker_grid.Config.Grammar.{Word, Words}
use caviar_hacker_grid.Config.Grammar.Accepts.{
  IsReady, statement_end-IsReady, end_block-IsReady, start_block-IsReady, run_semicolon,
  run_open_brace,
}
use caviar_hacker_grid.Config.Grammar.Following.{follow}
use caviar_hacker_grid.Config.Grammar.Pieces.{Read, Read-simple, Read-block}
use caviar_hacker_grid.Config.Grammar.Rounds.{run-Word, worded}
use caviar_hacker_grid.Config.Grammar.Trails.{Trail-Words}

-- The claim for texts shorter than `k`.
abbrev pub Reads : ℕ → Type 0
Reads k =
    (us : List Bytes) (final : Config) (cs : Configs) (below : List Config) (last : TokenType)
    (input : Bytes)
    → length input < k
    → IsReady last
    → run (at (node us cs) below last (level (length below))) input ≡ returned true final
    → Read us final cs below input

module _ (k : ℕ) (reads : Reads k) (us : List Bytes) (final : Config) (cs : Configs)
    (below : List Config) (ts : List Bytes) {w input : Bytes} (rest : Bytes)
    (short : length input ≤ k) where
  -- Behind the words of a statement with no block.
  Words-simple :
      Words b';' ts w
      → input ≡ w ++ b';' ∷ rest
      → run (worded us cs below (length below) ts) (b';' ∷ rest) ≡ returned true final
      → Read us final cs below input
  Words-simple words e r =
      let size = ap length e ∙ length-append w (b';' ∷ rest) in
      Read-simple us final cs below rest words e (
        reads us final (snoc cs (node ts nil)) below statement_end rest (omega (arith, short, size))
          statement_end-IsReady
          (sym (run_semicolon (node us (snoc cs (node ts nil))) below (length below) rest) ∙ r))

  -- Behind the words of a statement with a block.
  Words-block :
      Words b'{' ts w
      → input ≡ w ++ b'{' ∷ rest
      → run (worded us cs below (length below) ts) (b'{' ∷ rest) ≡ returned true final
      → Read us final cs below input
  Words-block words e r =
      let size = ap length e ∙ length-append w (b'{' ∷ rest) in
      let inner =
        reads ts final nil (node us cs ∷ below) start_block rest (omega (arith, short, size))
          start_block-IsReady
          (sym (run_open_brace us cs (node ts nil) below (length below) rest) ∙ r) in
      let (rest', f, g) = inner.ends in
      let text : rest ≡ inner.x ++ b'}' ∷ rest' = inner.text ∙ ap (◌++◌ inner.x) f in
      let size' = ap length text ∙ length-append inner.x (b'}' ∷ rest') in
      Read-block us final cs below rest' words inner.statements (e ∙ ap (λ t. w ++ b'{' ∷ t) text) (
        reads us final (snoc cs (node ts inner.ds)) below end_block rest'
          (omega (arith, short, size, size')) end_block-IsReady g)

-- A statement, from its first word on.
pub Word-statement :
    (k : ℕ) (us : List Bytes) (final : Config) (cs : Configs) (below : List Config)
    (last : TokenType) {input : Bytes} (t rest : Bytes)
    → Reads k
    → length input ≤ k
    → IsReady last
    → run (at (node us cs) below last (level (length below))) input ≡ returned true final
    → Word t rest
    → input ≡ t ++ rest
    → Read us final cs below input
Word-statement k us final cs below last t rest reads h q r wd e =
    let n = length below in
    let s = at (node us cs) below last (level n) in
    let first = round_first_word us cs below (level n) last t q.holds q.fresh in
    let f =
      follow us cs below n final (suc (length rest)) (t ∷ []) rest (omega arith) (
        sym (run-Word s (worded us cs below n (t ∷ [])) t rest wd first)
        ∙ ap (run s) (sym e)
        ∙ r) in
    let words = Trail-Words t f.rest (subst (Word t) f.text wd) f.trail in
    let text = e ∙ ap (◌++◌ t) f.text ∙ sym (append_assoc t f.w (f.ending ∷ f.rest)) in
    elim f.which [
      | inl c ↦
          Words-simple k reads us final cs below (t ∷ f.ts) f.rest h
            (subst (λ d. Words d (t ∷ f.ts) (t ++ f.w)) c words)
            (text ∙ ap (λ d. (t ++ f.w) ++ d ∷ f.rest) c)
            (subst (λ d. run (worded us cs below n (t ∷ f.ts)) (d ∷ f.rest) ≡ returned true final) c
              f.runs)
      | inr c ↦
          Words-block k reads us final cs below (t ∷ f.ts) f.rest h
            (subst (λ d. Words d (t ∷ f.ts) (t ++ f.w)) c words)
            (text ∙ ap (λ d. (t ++ f.w) ++ d ∷ f.rest) c)
            (subst (λ d. run (worded us cs below n (t ∷ f.ts)) (d ∷ f.rest) ≡ returned true final) c
              f.runs)
    ]
