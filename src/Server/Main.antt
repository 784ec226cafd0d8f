-- ===== src/Server/Main.antt =====
-- main.cc, and `WebServer::run_server` of server/webserver.cc.
pub mod Life
pub mod Answers
pub mod Blocking
pub mod Counts
pub mod Shown
use caviar_hacker_grid.Base.{ℕ, ◌+◌, ◌==◌, List, [], ◌∷◌, Option, none, some, if◌then◌else◌}
use caviar_hacker_grid.Base.Run.{Run, done, ◌>>=◌}
use caviar_hacker_grid.Base.Text.{Bytes}
use caviar_hacker_grid.Handlers.Cloud.{Host}
use caviar_hacker_grid.Server.EventLoop.{Loop, new_loop, count, accepting, reading, blocked}
use caviar_hacker_grid.Server.Ports.{Sockets, unsigned_short, port_valid}
use caviar_hacker_grid.Server.WebServer.{WebServer, start}

-- `main` has returned its exit code, or is in `Server::run`.
pub data Program : Type 0 where
  exited : ℕ → Program
  running : WebServer → Loop → Program

-- `run_server` up to `Server::run`. The acceptor opens a socket, binds it and listens, and throws where
-- one of these fails; `run_server` catches that.
unfoldable pub run_server : Sockets → Host → WebServer → Option Loop
unfolding unsigned_short port_valid
run_server sockets host w =
    if port_valid sockets w.port == 0
    then if sockets.listen_error (unsigned_short w.port) == 0
      then some (new_loop (record { status = w.status; host = host }))
      else none
    else none

-- `main` behind `Init`.
unfoldable pub run_main : Sockets → Host → Option WebServer → Program
unfolding run_server
run_main sockets host none = exited 1
run_main sockets host (some w) = elim (run_server sockets host w) [
  | none ↦ exited 1
  | some l ↦ running w l
]

-- `main`, with what the files hold that can be opened, and `argv`.
unfoldable pub main : Sockets → (Bytes → Option Bytes) → Host → List Bytes → Run Program
unfolding start run_main
main sockets file_of host (program ∷ path ∷ []) =
    start sockets (file_of path) >>= λ server. done (run_main sockets host server)
main sockets file_of host argv = done (exited 1)

-- `Server::run` returns, and `main` with 0, when no callback is outstanding and every thread is back.
unfoldable pub exit_code : Loop → Option ℕ
unfolding count
exit_code l =
    if count accepting l.sessions + (count reading l.sessions + count blocked l.sessions) == 0
    then some 0
    else none
