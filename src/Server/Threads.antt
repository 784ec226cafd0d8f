-- ===== src/Server/Threads.antt =====
-- server/server.cc, `ServerStatus::LogIncomingRequest` on several threads at once. No lock is held, so
-- that the calls interleave. Here an `insert` is one step, and `++` on an `int` reads and writes it in
-- two; the language gives such a program no meaning, and this is the mildest that a machine makes of it.
pub mod Alone
pub mod Bounds
pub mod Counters
pub mod Lost
use caviar_hacker_grid.Base.{
  ℕ, zero, suc, ◌+◌, ◌<◌, Bool, true, false, List, [], ◌∷◌, ◌++◌, Option, none, some, ◌≡◌,
  if◌then◌else◌,
}
use caviar_hacker_grid.Base.StdMap.{StdMap, update, lookup, assign, insert, is_new}
use caviar_hacker_grid.Base.StdMap.Keys.{int_order, text_order}
use caviar_hacker_grid.Base.Text.{Bytes}
use caviar_hacker_grid.Server.EventLoop.{num_of_threads}
use caviar_hacker_grid.Server.Status.{Status}
use caviar_hacker_grid.Server.Status.Tally.{counter}

-- Where a call is: before an `insert`, before the `++` of an entry that was there or of `requests_`,
-- between the read and the write of a `++`, or at its end.
pub data Place : Type 0 where
  at_code code_there at_url url_there at_requests returned : Place
  code_read url_read requests_read : ℕ → Place

-- A call of `LogIncomingRequest`.
pub record Call : Type 0 where
  pub url : Bytes
  pub resp_code : ℕ
  pub place : Place

abbrev pub enter : Bytes → ℕ → Call
enter url resp_code = record { url = url; resp_code = resp_code; place = at_code }

-- The next place of a call. A counter that an `insert` has found is never erased.
unfoldable pub next_place : Bytes → ℕ → Place → Status → Place
unfolding lookup
next_place url code at_code s = if is_new code s.response_count_by_code then at_url else code_there
next_place url code code_there s = code_read (counter code s.response_count_by_code)
next_place url code (code_read n) s = at_url
next_place url code at_url s = if is_new url s.request_count_by_url then at_requests else url_there
next_place url code url_there s = url_read (counter url s.request_count_by_url)
next_place url code (url_read n) s = at_requests
next_place url code at_requests s = requests_read s.requests
next_place url code (requests_read n) s = returned
next_place url code returned s = returned

-- What a call does to the counters on its way there.
unfoldable pub next_status : Bytes → ℕ → Place → Status → Status
unfolding update
next_status url code at_code s = record s {
  response_count_by_code = insert code 1 s.response_count_by_code;
}
next_status url code (code_read n) s = record s {
  response_count_by_code = assign code (suc n) s.response_count_by_code;
}
next_status url code at_url s = record s {
  request_count_by_url = insert url 1 s.request_count_by_url;
}
next_status url code (url_read n) s = record s {
  request_count_by_url = assign url (suc n) s.request_count_by_url;
}
next_status url code (requests_read n) s = record s { requests = suc n }
next_status url code place s = s

-- A number of steps of one call.
unfoldable pub advance : ℕ → Bytes → ℕ → Place → Status → Place × Status
unfolding next_place next_status
advance zero url code place s = (place, s)
advance (suc n) url code place s =
    advance n url code (next_place url code place s) (next_status url code place s)

pub record Threads : Type 0 where
  pub calls : List Call
  pub status : Status

abbrev pub call_of : ℕ → List Call → Option Call
call_of i [] = none
call_of zero (c ∷ cs) = some c
call_of (suc i) (c ∷ cs) = call_of i cs

abbrev pub set_place : ℕ → Place → List Call → List Call
set_place i p [] = []
set_place zero p (c ∷ cs) = record c { place = p } ∷ cs
set_place (suc i) p (c ∷ cs) = c ∷ set_place i p cs

abbrev pub has_returned : Place → Bool
has_returned returned = true
has_returned _ = false

-- The calls that have not returned.
unfoldable pub unreturned : List Call → ℕ
unreturned [] = 0
unreturned (c ∷ cs) = (if has_returned c.place then 0 else 1) + unreturned cs

-- A thread that is free begins a call, or a call takes a step.
pub data Moves (first : Threads) : Threads → Type 0 where
  start : Moves first first
  begin :
      {t : Threads} (url : Bytes) (resp_code : ℕ)
      → Moves first t
      → unreturned t.calls < num_of_threads
      → Moves first (record t { calls = t.calls ++ enter url resp_code ∷ [] })
  move :
      {t : Threads} (i : ℕ) (c : Call)
      → Moves first t
      → call_of i t.calls ≡ some c
      → Moves first (record {
        calls = set_place i (next_place c.url c.resp_code c.place t.status) t.calls;
        status = next_status c.url c.resp_code c.place t.status;
      })
