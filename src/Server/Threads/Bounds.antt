-- ===== src/Server/Threads/Bounds.antt =====
-- However the calls of `LogIncomingRequest` interleave, no counter gets ahead of them.
use caviar_hacker_grid.Base.{
  ℕ, zero, suc, ◌+◌, ◌≤◌, List, [], ◌∷◌, ◌++◌, some, ◌≡◌, arith, All, subst, sym,
}
use caviar_hacker_grid.Base.StdMap.{IsSorted, keep}
use caviar_hacker_grid.Base.StdMap.Keys.{int_order, text_order}
use caviar_hacker_grid.Base.StdMap.Laws.{update-IsSorted}
use caviar_hacker_grid.Base.Text.{Bytes}
use caviar_hacker_grid.Server.Status.{Status}
use caviar_hacker_grid.Server.Threads.{
  Place, Call, enter, at_code, code_there, code_read, at_url, url_there, url_read, at_requests,
  requests_read, returned, next_place, next_status, Threads, call_of, set_place, Moves, start,
  begin, move,
}

abbrev pub stepped : Call → Status → Call
stepped c s = record c { place = next_place c.url c.resp_code c.place s }

abbrev pub status_of : Call → Status → Status
status_of c s = next_status c.url c.resp_code c.place s

abbrev pub AreSorted : Status → Type 0
AreSorted s = IsSorted s.request_count_by_url × IsSorted s.response_count_by_code

AreSorted-next_status :
    (url : Bytes) (code : ℕ) (place : Place) (s : Status)
    → AreSorted s
    → AreSorted (next_status url code place s)
unfolding next_status
AreSorted-next_status url code at_code s (u, c) = (u, update-IsSorted (keep 1) code _ c)
AreSorted-next_status url code (code_read n) s (u, c) = (u, update-IsSorted (λ _. suc n) code _ c)
AreSorted-next_status url code at_url s (u, c) = (update-IsSorted (keep 1) url _ u, c)
AreSorted-next_status url code (url_read n) s (u, c) = (update-IsSorted (λ _. suc n) url _ u, c)
AreSorted-next_status url code (requests_read n) s v = v
AreSorted-next_status url code code_there s v = v
AreSorted-next_status url code url_there s v = v
AreSorted-next_status url code at_requests s v = v
AreSorted-next_status url code returned s v = v

module _ (passed : Call → ℕ) where
  abbrev pub sum_of : List Call → ℕ
  sum_of [] = 0
  sum_of (c ∷ cs) = passed c + sum_of cs

  sum_of-begin : (cs : List Call) (c : Call) → sum_of (cs ++ c ∷ []) ≡ sum_of cs + passed c
  sum_of-begin [] c = omega arith
  sum_of-begin (d ∷ cs) c = omega (arith, sum_of-begin cs c)

  sum_of-move :
      (i : ℕ) (c : Call) (p : Place) (cs : List Call)
      → call_of i cs ≡ some c
      → sum_of (set_place i p cs) + passed c ≡ sum_of cs + passed (record c { place = p })
  sum_of-move i c p [] e = cc
  sum_of-move zero c p (d ∷ cs) e =
      let f : c ≡ d = cc in
      subst
        (λ (b : Call).
          passed (record d { place = p }) + sum_of cs + passed b
          ≡ passed d + sum_of cs + passed (record b { place = p }))
        (sym f) (omega arith)
  sum_of-move (suc i) c p (d ∷ cs) e = omega (arith, sum_of-move i c p cs e)

module _ (held : Call → ℕ) where
  abbrev pub AreHeld : ℕ → List Call → Type 0
  AreHeld b = All (λ c. held c ≤ b)

  AreHeld-weaken : (b b' : ℕ) (cs : List Call) → b ≤ b' → AreHeld b cs → AreHeld b' cs
  AreHeld-weaken b b' [] h a = tt
  AreHeld-weaken b b' (c ∷ cs) h (p, a) = (omega (arith, h, p), AreHeld-weaken b b' cs h a)

  AreHeld-begin :
      (b : ℕ) (cs : List Call) (c : Call) → held c ≤ b → AreHeld b cs → AreHeld b (cs ++ c ∷ [])
  AreHeld-begin b [] c h a = (h, tt)
  AreHeld-begin b (d ∷ cs) c h (p, a) = (p, AreHeld-begin b cs c h a)

  AreHeld-move :
      (b : ℕ) (i : ℕ) (c : Call) (p : Place) (cs : List Call)
      → call_of i cs ≡ some c
      → held (record c { place = p }) ≤ b
      → AreHeld b cs
      → AreHeld b (set_place i p cs)
  AreHeld-move b i c p [] e h a = cc
  AreHeld-move b zero c p (d ∷ cs) e h (q, a) =
      let f : c ≡ d = cc in (subst (λ (x : Call). held (record x { place = p }) ≤ b) f h, a)
  AreHeld-move b (suc i) c p (d ∷ cs) e h (q, a) = (q, AreHeld-move b i c p cs e h a)

  AreHeld-call_of :
      (b i : ℕ) (c : Call) (cs : List Call) → call_of i cs ≡ some c → AreHeld b cs → held c ≤ b
  AreHeld-call_of b i c [] e a = cc
  AreHeld-call_of b zero c (d ∷ cs) e (p, a) =
      let f : d ≡ c = cc in subst (λ (x : Call). held x ≤ b) f p
  AreHeld-call_of b (suc i) c (d ∷ cs) e (p, a) = AreHeld-call_of b i c cs e a

-- A counter of the status, whether a call has counted in it, and the value of it that a call holds.
abbrev pub Law : (Status → ℕ) → (Call → ℕ) → (Call → ℕ) → Type 0
Law read passed held =
    (c : Call) (s : Status) (b : ℕ)
    → AreSorted s
    → read s ≤ b
    → held c ≤ b
    → (read (status_of c s) + passed c ≤ b + passed (stepped c s))
      × (held (stepped c s) + passed c ≤ b + passed (stepped c s))
      × (passed c ≤ passed (stepped c s))

module _ (read : Status → ℕ) (passed held : Call → ℕ) (law : Law read passed held)
    (at_entry : (url : Bytes) (code : ℕ)
      → (passed (enter url code) ≡ 0) × (held (enter url code) ≡ 0))
    (first : Status) where
  abbrev pub Bounded : Threads → Type 0
  Bounded t =
      AreSorted t.status
      × (read t.status ≤ read first + sum_of passed t.calls)
      × AreHeld held (read first + sum_of passed t.calls) t.calls

  pub Moves-Bounded :
      {t : Threads} → AreSorted first → Moves (record { calls = []; status = first }) t → Bounded t
  Moves-Bounded v start = (v, omega arith, tt)
  Moves-Bounded v (begin {t} url code m _) =
      let (sorted, bound, holds) = Moves-Bounded v m in
      let (p, h) = at_entry url code in
      let grown = sum_of-begin passed t.calls (enter url code) in
      let b = read first + sum_of passed t.calls in
      let b' = read first + sum_of passed (t.calls ++ enter url code ∷ []) in
      (
        sorted,
        omega (arith, bound, grown, p),
        AreHeld-weaken held b b' _ (omega (arith, grown, p))
            (AreHeld-begin held b t.calls (enter url code) (omega (arith, h)) holds),
      )
  Moves-Bounded v (move {t} i c m e) =
      let (sorted, bound, holds) = Moves-Bounded v m in
      let b = read first + sum_of passed t.calls in
      let p = next_place c.url c.resp_code c.place t.status in
      let b' = read first + sum_of passed (set_place i p t.calls) in
      let moved = sum_of-move passed i c p t.calls e in
      let (r, h, g) = law c t.status b sorted bound (AreHeld-call_of held b i c t.calls e holds) in
      (
        AreSorted-next_status c.url c.resp_code c.place t.status sorted,
        omega (arith, r, moved),
        AreHeld-move held b' i c p t.calls e (omega (arith, h, moved))
            (AreHeld-weaken held b b' t.calls (omega (arith, g, moved)) holds),
      )
