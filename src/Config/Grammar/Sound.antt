-- ===== src/Config/Grammar/Sound.antt =====
-- A file that `ParseConfig` accepts is a text of the grammar.
use caviar_hacker_grid.Base.{
  ℕ, zero, suc, true, List, [], ◌∷◌, ◌++◌, ◌≡◌, inl, inr, refl, ap, sym, ◌∙◌, arith, append_assoc,
  length, length-append, subst, Bool-cases,
}
use caviar_hacker_grid.Base.Text.{Bytes}
use caviar_hacker_grid.Config.{Config, node, Configs}
use caviar_hacker_grid.Config.Lexer.{
  TokenType, eof, error, start_block, end_block, statement_end, parse_token,
}
use caviar_hacker_grid.Config.Parser.{level, returned, round, close_all, may_close}
use caviar_hacker_grid.Config.Parser.Progress.{run, run_skip}
use caviar_hacker_grid.Config.Parser.Rounds.{at}
use caviar_hacker_grid.Config.Grammar.{no_gap, blank, Tail, at_end, cut_word, cut_comment}
use caviar_hacker_grid.Config.Grammar.Accepts.{run_close_brace}
use caviar_hacker_grid.Config.Grammar.Following.{comment-Gap}
use caviar_hacker_grid.Config.Grammar.Fronts.{
  nothing, word_cut, comment_cut, open_quote, blank_first, comment_first, word_first, mark,
  Front-cases, parse_token_cut_comment,
}
use caviar_hacker_grid.Config.Grammar.Edges.{run_root_brace}
use caviar_hacker_grid.Config.Grammar.Pieces.{Ends, Read-end, Read-Gap}
use caviar_hacker_grid.Config.Grammar.Reads.{Reads, Word-statement}
use caviar_hacker_grid.Config.Grammar.Reading.{parse_token_blank, parse_token_cut_word}
use caviar_hacker_grid.Config.Grammar.Rounds.{run-Gap}
use caviar_hacker_grid.Config.Grammar.Stops.{accepts_at_end, refused, parse_loop-without_root}

Ends-at_end :
    (us : List Bytes) (cs : Configs) (below : List Config) (last : TokenType) (input text : Bytes)
    {final : Config}
    → parse_token input ≡ record { kind = eof; text = text; rest = [] }
    → run (at (node us cs) below last (level (length below))) input ≡ returned true final
    → Tail input
    → Ends us final cs below input
Ends-at_end us cs [] last input text t r tail =
    let (_, e, _) = accepts_at_end (node us cs) [] last 0 input text t r in (tail, e)
Ends-at_end us cs (node ts ds ∷ below) last input text t r tail =
    let (e, _, _) =
      accepts_at_end (node us cs) (node ts ds ∷ below) last (suc (length below)) input text t r in
    ground arith

Ends-close :
    (us : List Bytes) (cs : Configs) (below : List Config) (last : TokenType) (rest : Bytes)
    (final : Config)
    → run (at (node us cs) below last (level (length below))) (b'}' ∷ rest) ≡ returned true final
    → Ends us final cs below (b'}' ∷ rest)
unfolding round parse_token
Ends-close us cs below last rest final r = elim (Bool-cases (may_close last)) [
  | inl m ↦ closed below r m
  | inr m ↦ absurd (
      refused (at (node us cs) below last (level (length below))) (close_all (node us cs) below)
        final (b'}' ∷ rest) (b'}' ∷ []) rest end_block refl (rw m refl) r)
]
  where
    closed :
        (below : List Config)
        → run (at (node us cs) below last (level (length below))) (b'}' ∷ rest)
          ≡ returned true final
        → may_close last ≡ true
        → Ends us final cs below (b'}' ∷ rest)
    closed [] r m = absurd (
        parse_loop-without_root (suc (length rest)) (node us cs) final 0 rest
          (sym (run_root_brace (node us cs) last rest m) ∙ r))
    closed (node ts ds ∷ below) r m =
        (rest, refl, sym (run_close_brace ts ds (node us cs) below (length below) last rest m) ∙ r)

-- A file that is accepted from a state between statements has statements up to the end of the block,
-- or of the file.
pub read_statements : (k : ℕ) → Reads k
unfolding round parse_token
read_statements zero us final cs below last input h q r = ground arith
read_statements (suc k) us final cs below last input h q r =
    let n = length below in
    let s = at (node us cs) below last (level n) in
    let shown = close_all (node us cs) below in
    elim (Front-cases input) [
      | nothing e ↦
          let tail : Tail input = subst Tail (sym e) at_end in
          Read-end us final cs below input
            (Ends-at_end us cs below last input [] (ap parse_token e) r tail)
      | word_cut c w special free e ↦
          let tail : Tail input = subst Tail (sym e) (cut_word special free) in
          Read-end us final cs below input (
            Ends-at_end us cs below last input (c ∷ w)
              (ap parse_token e ∙ parse_token_cut_word c w special free) r tail)
      | comment_cut body free e ↦
          let tail : Tail input = subst Tail (sym e) (cut_comment free) in
          Read-end us final cs below input (
            Ends-at_end us cs below last input (b'#' ∷ body)
              (ap parse_token e ∙ parse_token_cut_comment body free) r tail)
      | open_quote c w e ↦ absurd (refused s shown final input input [] error e refl r)
      | blank_first c rest b e ↦ Read-Gap us final cs below {g = c ∷ []} rest (blank b no_gap) e (
          read_statements k us final cs below last rest (omega (arith, h, ap length e)) q
            (sym (run_skip s c rest (parse_token_blank c rest b)) ∙ ap (run s) (sym e) ∙ r))
      | comment_first body c rest free ends e ↦
          let gap = comment-Gap body c free ends in
          let text : input ≡ (b'#' ∷ (body ++ c ∷ [])) ++ rest =
            e ∙ ap (◌∷◌ b'#') (sym (append_assoc body (c ∷ []) rest)) in
          Read-Gap us final cs below rest gap text (
            read_statements k us final cs below last rest
              (omega (arith, h, ap length text, length-append (b'#' ∷ (body ++ c ∷ [])) rest)) q
              (sym (run-Gap s rest gap) ∙ ap (run s) (sym text) ∙ r))
      | word_first t rest wd e ↦
          Word-statement k us final cs below last t rest (read_statements k) (omega (arith, h)) q r
            wd e
      | mark c rest which e ↦ elim which [
        | inl c' ↦
            let text : input ≡ b';' ∷ rest = e ∙ ap (λ d. d ∷ rest) c' in
            absurd (
              refused s shown final (b';' ∷ rest) (b';' ∷ []) rest statement_end refl
                (rw q.fresh refl) (ap (run s) (sym text) ∙ r))
        | inr (inl c') ↦
            let text : input ≡ b'{' ∷ rest = e ∙ ap (λ d. d ∷ rest) c' in
            absurd (
              refused s shown final (b'{' ∷ rest) (b'{' ∷ []) rest start_block refl
                (rw q.fresh refl) (ap (run s) (sym text) ∙ r))
        | inr (inr c') ↦
            let text : input ≡ b'}' ∷ rest = e ∙ ap (λ d. d ∷ rest) c' in
            Read-end us final cs below input (
              subst (Ends us final cs below) (sym text)
                (Ends-close us cs below last rest final (ap (run s) (sym text) ∙ r)))
      ]
    ]
