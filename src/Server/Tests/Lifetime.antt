-- ===== src/Server/Tests/Lifetime.antt =====
-- The theorems on the life of the server at a concrete configuration, with one connection answered and
-- then an accept that fails.
use caviar_hacker_grid.Base.{
  ℕ, ◌≤◌, suc, true, false, List, [], ◌∷◌, Option, none, some, ◌≡◌, ◌≢◌, refl, arith, if◌then◌else◌,
  length, ◌<◌, ◌^◌,
}
use caviar_hacker_grid.Base.Number.{negsuc, pos, exceeds}
use caviar_hacker_grid.Base.Run.{Run, done}
use caviar_hacker_grid.Base.StdMap.{lookup}
use caviar_hacker_grid.Base.StdMap.Keys.{int_order, text_order}
use caviar_hacker_grid.Base.Text.{Bytes, codes, equal}
use caviar_hacker_grid.Config.{children}
use caviar_hacker_grid.Config.Search.{first_tokens, matching}
use caviar_hacker_grid.Http.Decimal.{to_decimal}
use caviar_hacker_grid.Config.Trees.{named, none_left}
use caviar_hacker_grid.Server.EventLoop.{
  accepting, closed, count_closed, deleted, Loop, new_loop, count, HasThread, Step, accept, read,
  Steps, start, further, read_done, do_accept, serial,
}
use caviar_hacker_grid.Server.EventLoop.Accepting.{Steps_no_accept}
use caviar_hacker_grid.Server.Main.{Program, running, main, exit_code}
use caviar_hacker_grid.Server.Main.Counts.{main_counts}
use caviar_hacker_grid.Server.EventLoop.Counting.{count_replies, answered_uris}
use caviar_hacker_grid.Server.Status.Tally.{counter, occurrences}
use caviar_hacker_grid.Server.Main.Answers.{main_answers}
use caviar_hacker_grid.Server.Main.Life.{main-Steps, exit_code_lem}
use caviar_hacker_grid.Server.Ports.{port_valid, unsigned_short, IsBoundAs}
use caviar_hacker_grid.Server.Session.{replied, Served, silent}
use caviar_hacker_grid.Server.Status.Counts.{IsConsistent}
use caviar_hacker_grid.Handlers.{not_found_handler}
use caviar_hacker_grid.Server.Tests.{
  static_input, static_request, static_parsed, sockets, outside, config, ready, init_ready, shared,
  ready_shared, input, echoed, state_of,
}
use caviar_hacker_grid.Server.WebServer.{WebServer, new_server, int_to_string}
use caviar_hacker_grid.Server.WebServer.Bounds.{init_server-IsBoundAs}
use caviar_hacker_grid.Server.WebServer.Setup.{keys}

port_stated :
    first_tokens (matching (codes "port") (children config))
    ≡ codes "port" ∷ int_to_string (pos 8080) ∷ []
unfolding equal to_decimal
port_stated = refl

init_server-IsBoundAs_example :
    (ready.port ≡ pos 8080)
    × (exceeds (pos 8080) 65535 ≡ false)
    × (port_valid sockets (pos 8080) ≡ 0)
    × IsBoundAs (pos 8080) (unsigned_short (pos 8080))
init_server-IsBoundAs_example =
    init_server-IsBoundAs sockets (new_server config) (pos 8080)
      (named none_left (named none_left (named none_left none_left))) port_stated (omega arith)
      init_ready refl

-- A port below 0 is accepted and another is bound.
negative_port : unsigned_short (negsuc 0) ≡ 65535
unfolding unsigned_short
negative_port = refl

abbrev first : Loop
first = new_loop ready_shared

-- The first connection is accepted.
abbrev one_reads : Loop
unfolding do_accept
one_reads = record first { sessions = do_accept 0 false first.sessions }

-- Its session is read after the next accept has failed.
abbrev refused : Loop
unfolding do_accept one_reads
refused = record one_reads { sessions = do_accept 1 true one_reads.sessions }

abbrev text_of : Served → Bytes
text_of (replied text w) = text
text_of (silent w) = []

abbrev ended : Loop
ended = record { sessions = closed (text_of echoed) ∷ deleted ∷ []; shared = state_of echoed }

answers_one : read_done ready.handler_mapping outside input true 0 refused ≡ done ended
unfolding read_done ready refused
answers_one = refl

one_refused : Steps ready.handler_mapping serial first refused
unfolding count refused
one_refused =
    further (further start (accept 0 false (omega arith) refl)) (accept 1 true (omega arith) refl)

one_answered : Steps ready.handler_mapping serial refused ended
unfolding count refused
one_answered = further start (read 0 outside input true (omega arith) refl answers_one)

all_ended : Steps ready.handler_mapping serial first ended
unfolding count refused
all_ended = further one_refused (read 0 outside input true (omega arith) refl answers_one)

one_deleted : count deleted refused.sessions ≢ 0
unfolding count refused
one_deleted = λ e. omega (arith, e)

Steps_no_accept_example :
    (count accepting ended.sessions ≡ 0)
    × (count deleted ended.sessions ≡ 1)
    × (length ended.sessions ≡ length refused.sessions)
Steps_no_accept_example = Steps_no_accept one_refused one_deleted one_answered

exits : exit_code ended ≡ some 0
unfolding exit_code
exits = refl

exit_code_lem_example :
    (count deleted ended.sessions ≡ 1)
    × ((l' : Loop) → Step ready.handler_mapping serial ended l' → ⊥)
exit_code_lem_example = exit_code_lem all_ended exits

abbrev config_file : Bytes
config_file = codes "port 8080; path /e EchoHandler {} default NotFoundHandler;"

abbrev files : Bytes → Option Bytes
unfolding equal
files path = if equal path (codes "web.conf") then some config_file else none

abbrev pub argv : List Bytes
argv = codes "webserver" ∷ codes "web.conf" ∷ []

abbrev pub loop_in : Run Loop → Loop
loop_in (done l) = l
loop_in _ = first

abbrev pub server_in : Run Program → WebServer
server_in (done (running w l)) = w
server_in _ = new_server config

abbrev loaded : WebServer
unfolding main
loaded = server_in (main sockets files shared.host argv)

abbrev loaded_first : Loop
loaded_first = new_loop (record { status = loaded.status; host = shared.host })

main_runs : main sockets files shared.host argv ≡ done (running loaded loaded_first)
unfolding main
main_runs = refl

free : HasThread loaded_first
unfolding count
free = omega arith

none_deleted : count deleted loaded_first.sessions ≡ 0
unfolding count
none_deleted = refl

-- The request is answered by the default handler.
main_answers_example :
    (l' : Loop) × Steps loaded.handler_mapping serial loaded_first l'
    × (count_closed l'.sessions ≡ suc (count_closed loaded_first.sessions))
    × (l'.shared.status.requests ≡ suc loaded_first.shared.status.requests)
unfolding loaded
main_answers_example =
    main_answers sockets files shared.host argv main_runs start free none_deleted outside
      static_input static_request not_found_handler (tt, tt) refl tt static_parsed

abbrev loaded_one : Loop
unfolding do_accept
loaded_one = record loaded_first { sessions = do_accept 0 false loaded_first.sessions }

loaded_step : Steps loaded.handler_mapping serial loaded_first loaded_one
unfolding count loaded loaded_one
loaded_step = further start (accept 0 false (omega arith) refl)

main-Steps_example :
    IsConsistent loaded_one.shared.status
    × (loaded_one.shared.status.requests ≡ count_closed loaded_one.sessions)
    × ((url : Bytes) (n : ℕ)
        → lookup url loaded_one.shared.status.request_count_by_url ≡ some n
        → n ≤ count_closed loaded_one.sessions)
    × ((code n : ℕ)
        → lookup code loaded_one.shared.status.response_count_by_code ≡ some n
        → n ≤ count_closed loaded_one.sessions)
    × (keys loaded.handler_mapping.request_handlers
        ≡ keys loaded_one.shared.status.request_handlers)
main-Steps_example = main-Steps sockets files shared.host argv main_runs loaded_step

-- The request for `/e` is answered by the echo handler.
abbrev loaded_two : Loop
unfolding read_done loaded loaded_one
loaded_two = loop_in (read_done loaded.handler_mapping outside input true 0 loaded_one)

loaded_answers : read_done loaded.handler_mapping outside input true 0 loaded_one ≡ done loaded_two
unfolding read_done loaded loaded_one loaded_two
loaded_answers = refl

loaded_steps : Steps loaded.handler_mapping serial loaded_first loaded_two
unfolding count loaded loaded_one loaded_two
loaded_steps = further loaded_step (read 0 outside input true (omega arith) refl loaded_answers)

main_counts_example :
    (loaded_two.shared.status.requests ≡ count_closed loaded_two.sessions)
    × ((code : ℕ)
        → code < 2 ^ 32
        → counter code loaded_two.shared.status.response_count_by_code
          ≡ count_replies code loaded_two.sessions)
    × ((url : Bytes)
        → counter url loaded_two.shared.status.request_count_by_url
          ≡ occurrences url (answered_uris loaded_steps))
main_counts_example = main_counts sockets files shared.host argv main_runs loaded_steps
