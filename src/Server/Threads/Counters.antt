-- ===== src/Server/Threads/Counters.antt =====
-- The counters of `ServerStatus` under calls that interleave.
use caviar_hacker_grid.Base.{
  ℕ, suc, ◌+◌, ◌≤◌, Bool, true, false, ◌&&◌, [], ◌≡◌, refl, arith, if◌then◌else◌, inl, inr,
  Bool-cases,
}
use caviar_hacker_grid.Base.StdMap.{Order, StdMap, IsSorted, keep, is_new, insert, assign}
use caviar_hacker_grid.Base.StdMap.Keys.{int_order, text_order}
use caviar_hacker_grid.Base.Text.{Bytes}
use caviar_hacker_grid.Server.Status.{Status}
use caviar_hacker_grid.Server.Status.Tally.{counter, is_key, counter-update}
use caviar_hacker_grid.Server.Threads.{
  Place, Call, at_code, code_there, code_read, at_url, url_there, url_read, at_requests,
  requests_read, returned, has_returned, next_place, next_status, Threads, Moves,
}
use caviar_hacker_grid.Server.Threads.Bounds.{AreSorted, sum_of, Moves-Bounded}

abbrev one_if : Bool → ℕ
one_if b = if b then 1 else 0

module _ {ℓ} {K : Type ℓ} ⦃o : Order K⦄ where
  -- An `insert` of 1 adds one to the counter of a key that is new, and to no other.
  pub counter-insert :
      (i k : K) (m : StdMap K ℕ)
      → IsSorted m
      → counter i (insert k 1 m) ≡ counter i m + one_if (is_key i k && is_new k m)
  counter-insert i k m s = elim (Bool-cases (is_key i k)) [
    | inl e ↦
        let same : i ≡ k = ground (arith, o.eq_iff i k, e) in
        ground (arith, e, same, counter-update (keep 1) i k m s)
    | inr e ↦ ground (arith, e, counter-update (keep 1) i k m s)
  ]

  pub counter-assign :
      (i k : K) (n : ℕ) (m : StdMap K ℕ)
      → IsSorted m
      → counter i (assign k (suc n) m) ≡ (if is_key i k then suc n else counter i m)
  counter-assign i k n m s = ground (arith, counter-update (λ _. suc n) i k m s)

-- The calls that have returned.
abbrev pub has_counted : Call → ℕ
has_counted c = one_if (has_returned c.place)

abbrev held_requests : Place → ℕ
held_requests (requests_read n) = n
held_requests _ = 0

abbrev call : Bytes → ℕ → Place → Call
call url code place = record { url = url; resp_code = code; place = place }

requests_law :
    (url : Bytes) (code : ℕ) (place : Place) (s : Status) (b : ℕ)
    → s.requests ≤ b
    → held_requests place ≤ b
    → ((next_status url code place s).requests + one_if (has_returned place)
        ≤ b + one_if (has_returned (next_place url code place s)))
      × (held_requests (next_place url code place s) + one_if (has_returned place)
          ≤ b + one_if (has_returned (next_place url code place s)))
      × (one_if (has_returned place) ≤ one_if (has_returned (next_place url code place s)))
unfolding next_status next_place
requests_law url code at_code s b r h = ground arith
requests_law url code code_there s b r h = ground arith
requests_law url code (code_read n) s b r h = ground arith
requests_law url code at_url s b r h = ground arith
requests_law url code url_there s b r h = ground arith
requests_law url code (url_read n) s b r h = ground arith
requests_law url code at_requests s b r h = ground arith
requests_law url code (requests_read n) s b r h = ground arith
requests_law url code returned s b r h = ground arith

-- A call that is behind its `++` in the counters by code.
abbrev pub is_past_code : Place → Bool
is_past_code at_code = false
is_past_code code_there = false
is_past_code (code_read _) = false
is_past_code _ = true

abbrev pub has_counted_code : ℕ → Call → ℕ
has_counted_code code c = one_if (is_key code c.resp_code && is_past_code c.place)

abbrev held_code : ℕ → ℕ → Place → ℕ
held_code k code (code_read n) = if is_key k code then n else 0
held_code k code _ = 0

code_law :
    (k : ℕ) (url : Bytes) (code : ℕ) (place : Place) (s : Status) (b : ℕ)
    → IsSorted s.response_count_by_code
    → counter k s.response_count_by_code ≤ b
    → held_code k code place ≤ b
    → (counter k (next_status url code place s).response_count_by_code
          + one_if (is_key k code && is_past_code place)
        ≤ b + one_if (is_key k code && is_past_code (next_place url code place s)))
      × (held_code k code (next_place url code place s)
            + one_if (is_key k code && is_past_code place)
          ≤ b + one_if (is_key k code && is_past_code (next_place url code place s)))
      × (one_if (is_key k code && is_past_code place)
          ≤ one_if (is_key k code && is_past_code (next_place url code place s)))
unfolding next_status next_place
code_law k url code at_code s b v r h =
    ground (arith, counter-insert k code s.response_count_by_code v)
code_law k url code code_there s b v r h = ground (arith, int_order.eq_iff k code)
code_law k url code (code_read n) s b v r h =
    ground (arith, counter-assign k code n s.response_count_by_code v)
code_law k url code at_url s b v r h = ground arith
code_law k url code url_there s b v r h = ground arith
code_law k url code (url_read n) s b v r h = ground arith
code_law k url code at_requests s b v r h = ground arith
code_law k url code (requests_read n) s b v r h = ground arith
code_law k url code returned s b v r h = ground arith

-- A call that is behind its `++` in the counters by URI.
abbrev pub is_past_url : Place → Bool
is_past_url at_requests = true
is_past_url (requests_read _) = true
is_past_url returned = true
is_past_url _ = false

abbrev pub has_counted_url : Bytes → Call → ℕ
has_counted_url url c = one_if (is_key url c.url && is_past_url c.place)

abbrev held_url : Bytes → Bytes → Place → ℕ
held_url k url (url_read n) = if is_key k url then n else 0
held_url k url _ = 0

url_law :
    (k url : Bytes) (code : ℕ) (place : Place) (s : Status) (b : ℕ)
    → IsSorted s.request_count_by_url
    → counter k s.request_count_by_url ≤ b
    → held_url k url place ≤ b
    → (counter k (next_status url code place s).request_count_by_url
          + one_if (is_key k url && is_past_url place)
        ≤ b + one_if (is_key k url && is_past_url (next_place url code place s)))
      × (held_url k url (next_place url code place s) + one_if (is_key k url && is_past_url place)
          ≤ b + one_if (is_key k url && is_past_url (next_place url code place s)))
      × (one_if (is_key k url && is_past_url place)
          ≤ one_if (is_key k url && is_past_url (next_place url code place s)))
unfolding next_status next_place
url_law k url code at_code s b v r h = ground arith
url_law k url code code_there s b v r h = ground arith
url_law k url code (code_read n) s b v r h = ground arith
url_law k url code at_url s b v r h = ground (arith, counter-insert k url s.request_count_by_url v)
url_law k url code url_there s b v r h = ground (arith, text_order.eq_iff k url)
url_law k url code (url_read n) s b v r h =
    ground (arith, counter-assign k url n s.request_count_by_url v)
url_law k url code at_requests s b v r h = ground arith
url_law k url code (requests_read n) s b v r h = ground arith
url_law k url code returned s b v r h = ground arith

-- However calls of `LogIncomingRequest` interleave on the threads: the number of requests has grown by
-- no more than the calls that have returned, the counter of a status code by no more than the calls for
-- it that are behind their `++` there, and the counter of a URI likewise.
pub counters_bound :
    (first : Status) {t : Threads}
    → AreSorted first
    → Moves (record { calls = []; status = first }) t
    → (t.status.requests ≤ first.requests + sum_of has_counted t.calls)
      × ((code : ℕ)
          → counter code t.status.response_count_by_code
            ≤ counter code first.response_count_by_code + sum_of (has_counted_code code) t.calls)
      × ((url : Bytes)
          → counter url t.status.request_count_by_url
            ≤ counter url first.request_count_by_url + sum_of (has_counted_url url) t.calls)
counters_bound first v m = (
  (Moves-Bounded (λ s. s.requests) has_counted (λ c. held_requests c.place)
      (λ c s b _ r h. requests_law c.url c.resp_code c.place s b r h) (λ url code. (refl, refl))
      first v m).1,
  λ k.
      (Moves-Bounded (λ s. counter k s.response_count_by_code) (has_counted_code k)
        (λ c. held_code k c.resp_code c.place)
        (λ c s b w r h. code_law k c.url c.resp_code c.place s b w.1 r h)
        (λ url code. (ground arith, refl)) first v m).1,
  λ k.
      (Moves-Bounded (λ s. counter k s.request_count_by_url) (has_counted_url k)
        (λ c. held_url k c.url c.place)
        (λ c s b w r h. url_law k c.url c.resp_code c.place s b w.0 r h)
        (λ url code. (ground arith, refl)) first v m).1,
)
