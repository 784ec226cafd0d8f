-- ===== src/Server/Threads/Lost.antt =====
-- Two calls of `LogIncomingRequest` at once.
use caviar_hacker_grid.Base.{
  ℕ, zero, suc, List, [], ◌∷◌, some, ◌≡◌, ◌∙◌, refl, ap, sym, arith, inl, inr, length, Option-cases,
  subst,
}
use caviar_hacker_grid.Base.StdMap.{lookup, update}
use caviar_hacker_grid.Base.StdMap.Keys.{int_order, text_order}
use caviar_hacker_grid.Base.Text.{Bytes}
use caviar_hacker_grid.Server.Status.{Status, count_one, log_incoming_request}
use caviar_hacker_grid.Server.Status.Counts.{total, total-update}
use caviar_hacker_grid.Server.Threads.{
  Place, Call, enter, at_code, at_url, requests_read, returned, next_place, next_status, advance,
  Threads, call_of, set_place, unreturned, Moves, start, begin, move,
}
use caviar_hacker_grid.Server.Threads.Alone.{code_new, code_old, url_new, url_old, log_alone}

abbrev counted : Bytes → ℕ → Status → Status
counted url code s = record s {
  response_count_by_code = update count_one code s.response_count_by_code;
  request_count_by_url = update count_one url s.request_count_by_url;
}

-- A call alone gets to where it has read `requests_`.
reads_url :
    (url : Bytes) (code : ℕ) (s : Status)
    → (n : ℕ) × (advance n url code at_url s ≡ (
      requests_read s.requests,
      record s { request_count_by_url = update count_one url s.request_count_by_url },
    ))
unfolding advance next_place next_status
reads_url url code s = elim (Option-cases (lookup url s.request_count_by_url)) [
  | inl e ↦ (2, url_new url code 1 s e)
  | inr (i, e) ↦ (4, url_old url code 1 s e)
]

reads_requests :
    (url : Bytes) (code : ℕ) (s : Status)
    → (n : ℕ) × (advance n url code at_code s ≡ (requests_read s.requests, counted url code s))
reads_requests url code s =
    let counted_code = record s {
      response_count_by_code = update count_one code s.response_count_by_code;
    } in
    let (n, f) = reads_url url code counted_code in
    elim (Option-cases (lookup code s.response_count_by_code)) [
      | inl e ↦ (suc n, code_new url code n s e ∙ f)
      | inr (i, e) ↦ (suc (suc (suc n)), code_old url code n s e ∙ f)
    ]

set_place_again :
    (i : ℕ) (p q : Place) (cs : List Call) → set_place i q (set_place i p cs) ≡ set_place i q cs
set_place_again i p q [] = refl
set_place_again zero p q (c ∷ cs) = refl
set_place_again (suc i) p q (c ∷ cs) = ap (◌∷◌ c) (set_place_again i p q cs)

set_place_same :
    (i : ℕ) (c : Call) (cs : List Call) → call_of i cs ≡ some c → set_place i c.place cs ≡ cs
set_place_same i c [] e = cc
set_place_same zero c (d ∷ cs) e =
    let f : c ≡ d = cc in ap (λ (b : Call). record d { place = b.place } ∷ cs) f
set_place_same (suc i) c (d ∷ cs) e = ap (◌∷◌ d) (set_place_same i c cs e)

call_of-set_place :
    (i : ℕ) (p : Place) (c : Call) (cs : List Call)
    → call_of i cs ≡ some c
    → call_of i (set_place i p cs) ≡ some (record c { place = p })
call_of-set_place i p c [] e = cc
call_of-set_place zero p c (d ∷ cs) e =
    let f : d ≡ c = cc in
    subst (λ (b : Call). some (record d { place = p }) ≡ some (record b { place = p })) f refl
call_of-set_place (suc i) p c (d ∷ cs) e = call_of-set_place i p c cs e

abbrev at : List Call → Status → Threads
at calls s = record { calls = calls; status = s }

-- One call takes a number of steps while the others wait.
moves :
    (n i : ℕ) (c : Call) (cs : List Call) (s : Status) {first : Threads}
    → Moves first (at cs s)
    → call_of i cs ≡ some c
    → Moves first (
        at
          (set_place i (advance n c.url c.resp_code c.place s).0 cs)
          (advance n c.url c.resp_code c.place s).1)
unfolding advance
moves zero i c cs s {first} m e =
    subst (λ ds. Moves first (at ds s)) (sym (set_place_same i c cs e)) m
moves (suc n) i c cs s {first} m e =
    let p = next_place c.url c.resp_code c.place s in
    let s' = next_status c.url c.resp_code c.place s in
    let r = advance n c.url c.resp_code p s' in
    subst (λ ds. Moves first (at ds r.1)) (set_place_again i p r.0 cs)
      (moves n i (record c { place = p }) (set_place i p cs) s' (move i c m e)
        (call_of-set_place i p c cs e))

-- From any counters, two requests counted at once can leave the number of requests one too small: both
-- calls have returned, the counters by code have grown by two, and the number of requests by one.
pub lost_update :
    (s : Status) (url url' : Bytes) (code code' : ℕ)
    → (t : Threads) × Moves (at [] s) t
      × (unreturned t.calls ≡ 0)
      × (length t.calls ≡ 2)
      × (total t.status.response_count_by_code ≡ suc (suc (total s.response_count_by_code)))
      × (t.status.requests ≡ suc s.requests)
unfolding unreturned next_place next_status log_incoming_request
lost_update s url url' code code' =
    let first = at [] s in
    let a = enter url code in
    let b = enter url' code' in
    let (n, f) = reads_requests url code s in
    let a' : Call = record a { place = requests_read s.requests } in
    let b' : Call = record b { place = returned } in
    let s₁ = counted url code s in
    let both : Moves first (at (a ∷ b ∷ []) s) =
      begin url' code' (begin url code start (omega arith)) (omega arith) in
    let waits : Moves first (at (a' ∷ b ∷ []) s₁) =
      subst (λ (r : Place × Status). Moves first (at (record a { place = r.0 } ∷ b ∷ []) r.1)) f
        (moves n 0 a (a ∷ b ∷ []) s both refl) in
    let overtaken : Moves first (at (a' ∷ b' ∷ []) (log_incoming_request url' code' s₁)) =
      subst (λ (r : Place × Status). Moves first (at (a' ∷ record b { place = r.0 } ∷ []) r.1))
        (log_alone url' code' s₁) (moves 8 1 b (a' ∷ b ∷ []) s₁ waits refl) in
    let codes = s.response_count_by_code in
    (
      _,
      move 0 a' overtaken refl,
      refl,
      refl,
      omega (arith, total-update code codes, total-update code' (update count_one code codes)),
      refl,
    )
