-- ===== src/Server/Main/Blocking.antt =====
-- A server with a handler that never ends.
use caviar_hacker_grid.Base.{List, Option, some, ◌≡◌, subst}
use caviar_hacker_grid.Base.Run.{done}
use caviar_hacker_grid.Base.Text.{Bytes}
use caviar_hacker_grid.Handlers.{blocking_handler}
use caviar_hacker_grid.Handlers.Cloud.{Host}
use caviar_hacker_grid.Handlers.Table.{find_longest_handler_key}
use caviar_hacker_grid.Http.Request.{Request, parsed, parse}
use caviar_hacker_grid.Server.EventLoop.{
  Loop, Steps, Step, count, deleted, blocked, num_of_threads, Mode,
}
use caviar_hacker_grid.Server.EventLoop.Blocking.{Steps_block, do_read-blocking}
use caviar_hacker_grid.Server.Main.{running, main}
use caviar_hacker_grid.Server.Main.Life.{main-running}
use caviar_hacker_grid.Server.Ports.{Sockets}
use caviar_hacker_grid.Server.Session.{Outside, handler_for}
use caviar_hacker_grid.Server.WebServer.{WebServer}

-- In every state of a server that `main` has started, whether callbacks overlap or not, while no accept has failed: if a request goes to a
-- blocking handler, then clients that send it can take every thread. From there on no step is possible:
-- no session is served and no connection is accepted any more.
pub main_blocks :
    (sockets : Sockets) (file_of : Bytes → Option Bytes) (host : Host) (argv : List Bytes)
    (outside : Outside) (input : Bytes) (request : Request) {mode : Mode} {w : WebServer}
    {first l : Loop}
    → main sockets file_of host argv ≡ done (running w first)
    → Steps w.handler_mapping mode first l
    → count deleted l.sessions ≡ 0
    → parse input ≡ parsed request
    → handler_for w.handler_mapping
        (find_longest_handler_key request.request_uri w.handler_mapping.request_handlers)
      ≡ some blocking_handler
    → (l' : Loop) × Steps w.handler_mapping mode l l'
      × (l'.shared ≡ l.shared)
      × (count blocked l'.sessions ≡ num_of_threads)
      × ((m : Loop) → Step w.handler_mapping mode l' m → ⊥)
main_blocks sockets file_of host argv outside input request {mode} {w} {first} {l} e s accepts p h =
    let (_, _, at_start) = main-running sockets file_of host argv e in
    Steps_block outside input (subst (λ m. Steps w.handler_mapping mode m l) at_start s) accepts
      (do_read-blocking outside w.handler_mapping input l.shared request p h)
