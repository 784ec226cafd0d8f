-- ===== src/Config/Grammar/Stops.antt =====
-- Where the loop of `ParseConfig` ends, and with what.
use caviar_hacker_grid.Base.{
  ℕ, zero, suc, true, false, List, [], ◌≡◌, ◌≢◌, ◌⊎◌, inl, inr, refl, Bool-cases,
}
use caviar_hacker_grid.Base.Text.{Bytes}
use caviar_hacker_grid.Config.{Config}
use caviar_hacker_grid.Config.Lexer.{
  TokenType, start, normal, start_block, end_block, comment, statement_end, eof, error, parse_token,
}
use caviar_hacker_grid.Config.Parser.{
  State, level, negative, popped, Outcome, returned, undefined, next, stop, round, may_end,
  is_level, close_all, parse_loop,
}
use caviar_hacker_grid.Config.Parser.Progress.{run, run_token_stop}
use caviar_hacker_grid.Config.Parser.Rounds.{at}

level_zero : (n : ℕ) → is_level (level n) ≡ true → n ≡ 0
level_zero zero e = refl
level_zero (suc n) e = cc

-- At the end of the file, with or without bytes that are no token, the tree is accepted at level 0 only.
pub accepts_at_end :
    (top : Config) (below : List Config) (last : TokenType) (n : ℕ) (input text : Bytes)
    {final : Config}
    → parse_token input ≡ record { kind = eof; text = text; rest = [] }
    → run (at top below last (level n)) input ≡ returned true final
    → (n ≡ 0) × (final ≡ close_all top below) × (may_end last ≡ true)
unfolding round
accepts_at_end top below last n input text {final} t e = elim (Bool-cases (may_end last)) [
  | inl m ↦
      let f : run (at top below last (level n)) input
          ≡ returned (is_level (level n)) (close_all top below) =
        run_token_stop (at top below last (level n)) _ input text [] eof t (rw m refl) in
      (level_zero n cc, cc, m)
  | inr m ↦
      let f : run (at top below last (level n)) input ≡ returned false (close_all top below) =
        run_token_stop (at top below last (level n)) _ input text [] eof t (rw m refl) in
      cc
]

-- A token that its guard refuses.
pub refused :
    (s : State) (c final : Config) (input text rest : Bytes) (kind : TokenType)
    → parse_token input ≡ record { kind = kind; text = text; rest = rest }
    → round s kind text ≡ stop (returned false c)
    → run s input ≢ returned true final
refused s c final input text rest kind t e f =
    let g = run_token_stop s (returned false c) input text rest kind t e in cc

abbrev pub without_root : Config → ℕ → State
without_root top m = record { stack = popped top; last = end_block; depth = negative m }

round-without_root :
    (top final : Config) (m : ℕ) (kind : TokenType) (text : Bytes)
    → (round (without_root top m) kind text ≡ next (without_root top m))
      ⊎ ((o : Outcome) × (round (without_root top m) kind text ≡ stop o)
          × (o ≢ returned true final))
unfolding round
round-without_root top final m start text = inr (returned false top, refl, λ e. cc)
round-without_root top final m normal text = inr (undefined, refl, λ e. cc)
round-without_root top final m start_block text = inr (returned false top, refl, λ e. cc)
round-without_root top final m end_block text = inr (undefined, refl, λ e. cc)
round-without_root top final m comment text = inl refl
round-without_root top final m statement_end text = inr (returned false top, refl, λ e. cc)
round-without_root top final m eof text = inr (returned false top, refl, λ e. cc)
round-without_root top final m error text = inr (returned false top, refl, λ e. cc)

-- Once the root is closed, no file is accepted.
pub parse_loop-without_root :
    (k : ℕ) (top final : Config) (m : ℕ) (input : Bytes)
    → parse_loop k (without_root top m) input ≢ returned true final
unfolding parse_loop
parse_loop-without_root zero top final m input = λ e. cc
parse_loop-without_root (suc k) top final m input =
    let token = parse_token input in
    elim (round-without_root top final m token.kind token.text) [
      | inl e ↦ rw (parse_loop, e) (parse_loop-without_root k top final m token.rest)
      | inr (o, e, n) ↦ rw (parse_loop, e) n
    ]
