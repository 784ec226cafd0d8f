-- ===== src/Server/Tests/Sites.antt =====
-- Servers for files, for a handler that never ends and for the status page, from their start on.
use caviar_hacker_grid.Base.{ℕ, suc, true, false, ◌++◌, some, ◌≡◌, ◌≢◌, refl, arith, ◌<◌, ◌^◌}
use caviar_hacker_grid.Base.Run.{done}
use caviar_hacker_grid.Base.StdMap.{lookup}
use caviar_hacker_grid.Base.StdMap.Keys.{int_order, text_order}
use caviar_hacker_grid.Base.Text.{Bytes, codes}
use caviar_hacker_grid.Server.EventLoop.{
  closed, count_closed, phase_of, deleted, blocked, Loop, new_loop, count, num_of_threads,
  HasThread, Step, accept, read, Steps, start, further, read_done, do_accept, serial,
}
use caviar_hacker_grid.Server.Main.{running, main}
use caviar_hacker_grid.Server.EventLoop.Counting.{count_replies, answered_uris}
use caviar_hacker_grid.Server.Status.Tally.{occurrences}
use caviar_hacker_grid.Server.Main.Blocking.{main_blocks}
use caviar_hacker_grid.Server.Main.Shown.{main_shows_counts}
use caviar_hacker_grid.Handlers.StatusPage.Items.{Contains, total_line, url_item, code_item}
use caviar_hacker_grid.Server.Main.Answers.{main_serves_file}
use caviar_hacker_grid.Handlers.Table.{find_longest_handler_key}
use caviar_hacker_grid.Handlers.Files.Answers.{static_type}
use caviar_hacker_grid.Server.Session.Replies.{ok_reply}
use caviar_hacker_grid.Server.Status.{log_incoming_request}
use caviar_hacker_grid.Server.Session.{handler_for}
use caviar_hacker_grid.Handlers.{static_handler, blocking_handler, status_handler, server_status}
use caviar_hacker_grid.Server.Tests.{
  static_input, with_file, static_request, static_parsed, static_file, sockets, outside, shared,
  input,
}
use caviar_hacker_grid.Server.WebServer.{WebServer}
use caviar_hacker_grid.Server.Tests.Lifetime.{server_in, argv, loop_in}

abbrev file_config : Bytes
file_config = codes "port 8080; path /s StaticHandler { root /w; } default NotFoundHandler;"

abbrev file_server : WebServer
unfolding main
file_server = server_in (main sockets (λ path. some file_config) with_file.host argv)

abbrev file_first : Loop
file_first = new_loop (record { status = file_server.status; host = with_file.host })

file_server_runs :
    main sockets (λ path. some file_config) with_file.host argv
    ≡ done (running file_server file_first)
unfolding main
file_server_runs = refl

file_server_key :
    find_longest_handler_key (codes "/s/a") file_server.handler_mapping.request_handlers
    ≡ codes "/s"
unfolding find_longest_handler_key file_server
file_server_key = refl

file_server_static :
    lookup (codes "/s") file_server.handler_mapping.request_handlers
    ≡ some (static_handler (codes "/s") (codes "/w"))
unfolding lookup file_server
file_server_static = refl

file_server_free : HasThread file_first
unfolding count
file_server_free = omega arith

file_server_accepts : count deleted file_first.sessions ≡ 0
unfolding count
file_server_accepts = refl

main_serves_file_example :
    (l' : Loop) × Steps file_server.handler_mapping serial file_first l'
    × ((i : ℕ) × (phase_of i l'.sessions
          ≡ some (closed (ok_reply (static_type (codes "/w" ++ codes "/a")) (codes "hi")))))
    × (l'.shared.status ≡ log_incoming_request (codes "/s/a") 200 file_first.shared.status)
    × (count_closed l'.sessions ≡ suc (count_closed file_first.sessions))
main_serves_file_example =
    main_serves_file sockets (λ path. some file_config) with_file.host argv file_server_runs start
      file_server_free file_server_accepts outside static_input static_request (codes "/s")
      (codes "/w") (codes "/a") (codes "hi") static_parsed refl file_server_key (λ e. cc)
      file_server_static static_file

abbrev block_config : Bytes
block_config = codes "port 8080; path /s BlockingHandler {} default NotFoundHandler;"

abbrev block_server : WebServer
unfolding main
block_server = server_in (main sockets (λ path. some block_config) shared.host argv)

abbrev block_first : Loop
block_first = new_loop (record { status = block_server.status; host = shared.host })

block_server_runs :
    main sockets (λ path. some block_config) shared.host argv
    ≡ done (running block_server block_first)
unfolding main
block_server_runs = refl

block_server_handler :
    handler_for block_server.handler_mapping
      (find_longest_handler_key (codes "/s/a") block_server.handler_mapping.request_handlers)
    ≡ some blocking_handler
unfolding find_longest_handler_key lookup block_server
block_server_handler = refl

block_server_accepts : count deleted block_first.sessions ≡ 0
unfolding count
block_server_accepts = refl

main_blocks_example :
    (l' : Loop) × Steps block_server.handler_mapping serial block_first l'
    × (l'.shared ≡ block_first.shared)
    × (count blocked l'.sessions ≡ num_of_threads)
    × ((m : Loop) → Step block_server.handler_mapping serial l' m → ⊥)
main_blocks_example =
    main_blocks sockets (λ path. some block_config) shared.host argv outside static_input
      static_request block_server_runs start block_server_accepts static_parsed block_server_handler

abbrev status_config : Bytes
status_config = codes "port 8080; path /s StatusHandler {} default NotFoundHandler;"

abbrev status_site : WebServer
unfolding main
status_site = server_in (main sockets (λ path. some status_config) shared.host argv)

abbrev status_first : Loop
status_first = new_loop (record { status = status_site.status; host = shared.host })

status_site_runs :
    main sockets (λ path. some status_config) shared.host argv
    ≡ done (running status_site status_first)
unfolding main
status_site_runs = refl

status_site_handler :
    handler_for status_site.handler_mapping
      (find_longest_handler_key (codes "/s/a") status_site.handler_mapping.request_handlers)
    ≡ some (status_handler server_status)
unfolding find_longest_handler_key lookup status_site
status_site_handler = refl

-- A request for no handler has been answered with 404.
abbrev status_accepted : Loop
unfolding do_accept
status_accepted = record status_first { sessions = do_accept 0 false status_first.sessions }

abbrev status_missed : Loop
unfolding read_done status_site status_accepted
status_missed = loop_in (read_done status_site.handler_mapping outside input true 0 status_accepted)

status_misses :
    read_done status_site.handler_mapping outside input true 0 status_accepted ≡ done status_missed
unfolding read_done status_site status_accepted status_missed
status_misses = refl

status_steps : Steps status_site.handler_mapping serial status_first status_missed
unfolding count status_site status_accepted status_missed
status_steps =
    further (further start (accept 0 false (omega arith) refl))
      (read 0 outside input true (omega arith) refl status_misses)

status_free : HasThread status_missed
unfolding count status_missed
status_free = omega arith

status_accepts : count deleted status_missed.sessions ≡ 0
unfolding count status_missed
status_accepts = refl

main_shows_counts_example :
    (page : Bytes) × ((l' : Loop) × Steps status_site.handler_mapping serial status_missed l'
      × (i : ℕ) × (phase_of i l'.sessions ≡ some (closed (ok_reply (codes "text/html") page))))
    × Contains page (total_line (count_closed status_missed.sessions))
    × ((url : Bytes)
        → occurrences url (answered_uris status_steps) ≢ 0
        → Contains page (url_item url (occurrences url (answered_uris status_steps))))
    × ((code : ℕ)
        → code < 2 ^ 32
        → count_replies code status_missed.sessions ≢ 0
        → Contains page (code_item code (count_replies code status_missed.sessions)))
main_shows_counts_example =
    main_shows_counts sockets (λ path. some status_config) shared.host argv outside static_input
      static_request status_site_runs status_steps status_free status_accepts static_parsed
      status_site_handler
