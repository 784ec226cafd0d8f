-- ===== src/Server/Tests/Counting.antt =====
-- Calls of `LogIncomingRequest` at concrete counters.
use caviar_hacker_grid.Base.{ℕ, suc, ◌+◌, ◌≤◌, [], ◌∷◌, ◌≡◌, refl, arith, length}
use caviar_hacker_grid.Base.StdMap.Keys.{int_order, text_order}
use caviar_hacker_grid.Base.Text.{Bytes, codes}
use caviar_hacker_grid.Server.Status.{Status, new_status, log_incoming_request}
use caviar_hacker_grid.Server.Status.Counts.{total}
use caviar_hacker_grid.Server.Status.Tally.{counter}
use caviar_hacker_grid.Server.Threads.{
  enter, at_code, returned, advance, next_place, next_status, Threads, unreturned, Moves, start,
  begin, move,
}
use caviar_hacker_grid.Server.Threads.Alone.{log_alone}
use caviar_hacker_grid.Server.Threads.Bounds.{sum_of}
use caviar_hacker_grid.Server.Threads.Counters.{
  has_counted, has_counted_code, has_counted_url, counters_bound,
}
use caviar_hacker_grid.Server.Threads.Lost.{lost_update}

-- One request for `/a` has been answered.
abbrev one_logged : Status
unfolding log_incoming_request
one_logged = log_incoming_request (codes "/a") 200 new_status

log_alone_example :
    advance 8 (codes "/a") 404 at_code one_logged
    ≡ (returned, log_incoming_request (codes "/a") 404 one_logged)
log_alone_example = log_alone (codes "/a") 404 one_logged

lost_update_example :
    (t : Threads) × Moves (record { calls = []; status = one_logged }) t
    × (unreturned t.calls ≡ 0)
    × (length t.calls ≡ 2)
    × (total t.status.response_count_by_code ≡ suc (suc (total one_logged.response_count_by_code)))
    × (t.status.requests ≡ suc one_logged.requests)
lost_update_example = lost_update one_logged (codes "/a") (codes "/b") 200 404

abbrev before : Threads
before = record { calls = []; status = one_logged }

-- A thread has taken the first step of a call.
abbrev after_one : Threads
unfolding next_place next_status
after_one = record {
  calls =
      record (enter (codes "/a") 404) { place = next_place (codes "/a") 404 at_code one_logged }
      ∷ [];
  status = next_status (codes "/a") 404 at_code one_logged;
}

one_move : Moves before after_one
unfolding unreturned after_one
one_move = move 0 (enter (codes "/a") 404) (begin (codes "/a") 404 start (omega arith)) refl

counters_bound_example :
    (after_one.status.requests ≤ one_logged.requests + sum_of has_counted after_one.calls)
    × ((code : ℕ)
        → counter code after_one.status.response_count_by_code
          ≤ counter code one_logged.response_count_by_code
            + sum_of (has_counted_code code) after_one.calls)
    × ((url : Bytes)
        → counter url after_one.status.request_count_by_url
          ≤ counter url one_logged.request_count_by_url
            + sum_of (has_counted_url url) after_one.calls)
unfolding one_logged
counters_bound_example = counters_bound one_logged ((tt, tt), (tt, tt)) one_move
