-- ===== src/Server/Status.antt =====
-- server/server.h and server/server.cc, `ServerStatus`. The counters are `int`; here they are
-- numbers with no bound.
pub mod Counts
pub mod Tally
use caviar_hacker_grid.Base.{ℕ, suc, ◌+◌, Option, none, some, []}
use caviar_hacker_grid.Base.StdMap.{StdMap, update, insert}
use caviar_hacker_grid.Base.StdMap.Keys.{int_order, text_order}
use caviar_hacker_grid.Base.Text.{Bytes}

-- `struct Status`.
pub record Status : Type 0 where
  pub request_count_by_url : StdMap Bytes ℕ
  pub response_count_by_code : StdMap ℕ ℕ
  pub request_handlers : StdMap Bytes Bytes
  pub default_handler : Bytes
  pub requests : ℕ

abbrev pub new_status : Status
new_status = record {
  request_count_by_url = [];
  response_count_by_code = [];
  request_handlers = [];
  default_handler = [];
  requests = 0;
}

-- `insert(make_pair(key, 1))`, and `second++` where the key was there.
abbrev pub count_one : Option ℕ → ℕ
count_one none = 1
count_one (some n) = suc n

-- `AddHandler`.
unfoldable pub add_handler : Bytes → Bytes → Status → Status
unfolding update
add_handler path handler s = record s { request_handlers = insert path handler s.request_handlers }

-- `LogIncomingRequest`.
unfoldable pub log_incoming_request : Bytes → ℕ → Status → Status
unfolding update
log_incoming_request url resp_code s = record s {
  response_count_by_code = update count_one resp_code s.response_count_by_code;
  request_count_by_url = update count_one url s.request_count_by_url;
  requests = suc s.requests;
}

-- `SetDefaultHandler`.
unfoldable pub set_default_handler : Bytes → Status → Status
set_default_handler handler s = record s { default_handler = handler }
