-- ===== src/Config/Grammar/Following.antt =====
-- What stands behind the words read of a statement, in a file that `ParseConfig` accepts.
use caviar_hacker_grid.Base.{
  ℕ, zero, suc, ◌<◌, true, List, [], ◌∷◌, ◌++◌, ◌≡◌, ◌⊎◌, inl, inr, refl, ap, sym, ◌∙◌, arith,
  append-nil, append_assoc, length, length-append, subst,
}
use caviar_hacker_grid.Base.Text.{Bytes, None}
use caviar_hacker_grid.Config.{Config, node, Configs, nil, snoc}
use caviar_hacker_grid.Config.Lexer.{normal, error, end_block, parse_token}
use caviar_hacker_grid.Config.Parser.{level, returned, round, close_all}
use caviar_hacker_grid.Config.Parser.Progress.{run, run_skip}
use caviar_hacker_grid.Config.Parser.Rounds.{round_more_words}
use caviar_hacker_grid.Config.Grammar.{Gap, no_gap, blank, remark, Word, is_line_end}
use caviar_hacker_grid.Config.Grammar.Fronts.{
  nothing, word_cut, comment_cut, open_quote, blank_first, comment_first, word_first, mark,
  Front-cases, parse_token_cut_comment,
}
use caviar_hacker_grid.Config.Grammar.Reading.{parse_token_blank, parse_token_cut_word}
use caviar_hacker_grid.Config.Grammar.Rounds.{run-Gap, run-Word, worded, Word-length}
use caviar_hacker_grid.Config.Grammar.Stops.{accepts_at_end, refused}
use caviar_hacker_grid.Config.Grammar.Trails.{Trail, over, more, Trail-Gap, Trail-Words}

-- A comment with the end of its line, as a gap.
pub comment-Gap :
    (body : Bytes) (c : ℕ)
    → None is_line_end body
    → is_line_end c ≡ true
    → Gap (b'#' ∷ (body ++ c ∷ []))
comment-Gap body c n h = remark body c n h no_gap

module _ (us : List Bytes) (cs : Configs) (below : List Config) (n : ℕ) (final : Config) where
  -- The rest of the statement, and the run from the byte that ends it.
  pub record Follow (vs : List Bytes) (input : Bytes) : Type 0 where
    pub ending : ℕ
    pub which : (ending ≡ b';') ⊎ (ending ≡ b'{')
    pub ts : List Bytes
    pub w : Bytes
    pub rest : Bytes
    pub trail : Trail ending ts w
    pub text : input ≡ w ++ ending ∷ rest
    pub runs : run (worded us cs below n (vs ++ ts)) (ending ∷ rest) ≡ returned true final

  Follow-Gap :
      (vs : List Bytes) {input g : Bytes} (rest : Bytes)
      → Gap g
      → input ≡ g ++ rest
      → Follow vs rest
      → Follow vs input
  Follow-Gap vs {g} rest gap e f = record {
    ending = f.ending;
    which = f.which;
    ts = f.ts;
    w = g ++ f.w;
    rest = f.rest;
    trail = Trail-Gap gap f.trail;
    text = e ∙ ap (◌++◌ g) f.text ∙ sym (append_assoc g f.w (f.ending ∷ f.rest));
    runs = f.runs;
  }

  Follow-ending :
      (vs : List Bytes) (c : ℕ) {input : Bytes} (rest : Bytes)
      → (c ≡ b';') ⊎ (c ≡ b'{')
      → input ≡ c ∷ rest
      → run (worded us cs below n vs) input ≡ returned true final
      → Follow vs input
  Follow-ending vs c rest which e r = record {
    ending = c;
    which = which;
    ts = [];
    w = [];
    rest = rest;
    trail = over no_gap;
    text = e;
    runs =
        ap (λ ts. run (worded us cs below n ts) (c ∷ rest)) (append-nil vs)
        ∙ ap (run (worded us cs below n vs)) (sym e)
        ∙ r;
  }

  Follow-Word :
      (vs : List Bytes) {input : Bytes} (t rest : Bytes)
      → Word t rest
      → input ≡ t ++ rest
      → Follow (vs ++ t ∷ []) rest
      → Follow vs input
  Follow-Word vs t rest wd e f = record {
    ending = f.ending;
    which = f.which;
    ts = t ∷ f.ts;
    w = t ++ f.w;
    rest = f.rest;
    trail = more [] (t ++ f.w) no_gap (Trail-Words t f.rest (subst (Word t) f.text wd) f.trail);
    text = e ∙ ap (◌++◌ t) f.text ∙ sym (append_assoc t f.w (f.ending ∷ f.rest));
    runs =
        ap (λ ts. run (worded us cs below n ts) (f.ending ∷ f.rest))
          (sym (append_assoc vs (t ∷ []) f.ts))
        ∙ f.runs;
  }

  -- Behind words that have been read, an accepted file goes on to the end of the statement.
  pub follow :
      (k : ℕ) (vs : List Bytes) (input : Bytes)
      → length input < k
      → run (worded us cs below n vs) input ≡ returned true final
      → Follow vs input
  unfolding round parse_token
  follow zero vs input h r = ground arith
  follow (suc k) vs input h r =
      let top = node us (snoc cs (node vs nil)) in
      let s = worded us cs below n vs in
      elim (Front-cases input) [
        | nothing e ↦
            let (_, _, m) = accepts_at_end top below normal n [] [] refl (ap (run s) (sym e) ∙ r) in
            cc
        | word_cut c w special free e ↦
            let (_, _, m) =
              accepts_at_end top below normal n (c ∷ w) (c ∷ w)
                (parse_token_cut_word c w special free) (ap (run s) (sym e) ∙ r) in
            cc
        | comment_cut body free e ↦
            let (_, _, m) =
              accepts_at_end top below normal n (b'#' ∷ body) (b'#' ∷ body)
                (parse_token_cut_comment body free) (ap (run s) (sym e) ∙ r) in
            cc
        | open_quote q w e ↦
            absurd (refused s (close_all top below) final input input [] error e refl r)
        | blank_first c rest b e ↦ Follow-Gap vs {g = c ∷ []} rest (blank b no_gap) e (
            follow k vs rest (omega (arith, h, ap length e))
              (sym (run_skip s c rest (parse_token_blank c rest b)) ∙ ap (run s) (sym e) ∙ r))
        | comment_first body c rest free ends e ↦
            let gap = comment-Gap body c free ends in
            let text : input ≡ (b'#' ∷ (body ++ c ∷ [])) ++ rest =
              e ∙ ap (◌∷◌ b'#') (sym (append_assoc body (c ∷ []) rest)) in
            Follow-Gap vs rest gap text (
              follow k vs rest
                (omega (arith, h, ap length text, length-append (b'#' ∷ (body ++ c ∷ [])) rest))
                (sym (run-Gap s rest gap) ∙ ap (run s) (sym text) ∙ r))
        | word_first t rest wd e ↦ Follow-Word vs t rest wd e (
            follow k (vs ++ t ∷ []) rest (omega (arith, h, ap length e, Word-length t rest wd)) (
              sym (
                run-Word s (worded us cs below n (vs ++ t ∷ [])) t rest wd
                  (round_more_words us cs below (level n) vs nil t))
              ∙ ap (run s) (sym e)
              ∙ r))
        | mark c rest which e ↦ elim which [
          | inl semicolon ↦ Follow-ending vs c rest (inl semicolon) e r
          | inr (inl brace) ↦ Follow-ending vs c rest (inr brace) e r
          | inr (inr brace) ↦
              let text : input ≡ b'}' ∷ rest = e ∙ ap (λ d. d ∷ rest) brace in
              absurd (
                refused s (close_all top below) final (b'}' ∷ rest) (b'}' ∷ []) rest end_block refl
                  refl (ap (run s) (sym text) ∙ r))
        ]
      ]
