-- ===== src/Server/Main/Counts.antt =====
-- What the status page of a server that the program has started shows.
use caviar_hacker_grid.Base.{ℕ, ◌<◌, ◌^◌, List, Option, ◌≡◌, ◌∙◌, refl, ap, arith}
use caviar_hacker_grid.Base.Run.{done}
use caviar_hacker_grid.Base.StdMap.{lookup}
use caviar_hacker_grid.Base.StdMap.Keys.{int_order, text_order}
use caviar_hacker_grid.Base.Text.{Bytes}
use caviar_hacker_grid.Handlers.Cloud.{Host}
use caviar_hacker_grid.Server.EventLoop.{Loop, Steps, count_closed, start, serial}
use caviar_hacker_grid.Server.EventLoop.Counting.{count_replies, answered_uris}
use caviar_hacker_grid.Server.EventLoop.Tallied.{by_code_of, by_url_of, Steps-Counts}
use caviar_hacker_grid.Server.Main.{running, main}
use caviar_hacker_grid.Server.Main.Life.{main-running, main-Steps}
use caviar_hacker_grid.Server.Ports.{Sockets}
use caviar_hacker_grid.Server.Status.Tally.{counter, occurrences}
use caviar_hacker_grid.Server.WebServer.{WebServer, new_server}
use caviar_hacker_grid.Server.WebServer.Setup.{init_server-IsSetUp}

-- In every state that a server which `main` has started reaches by callbacks that do not overlap
-- (those of handlers that never end aside), with accepts and reads in any order: the number of
-- requests is that of the connections closed after a reply, the counter of a status code, an `int`
-- that is given by its 32 bits, is the number of those whose reply begins with the status line of
-- that code, and the counter of a URI is the number of times that a request for it was answered.
pub main_counts :
    (sockets : Sockets) (file_of : Bytes → Option Bytes) (host : Host) (argv : List Bytes)
    {w : WebServer} {first l : Loop}
    → main sockets file_of host argv ≡ done (running w first)
    → (s : Steps w.handler_mapping serial first l)
    → (l.shared.status.requests ≡ count_closed l.sessions)
      × ((code : ℕ)
          → code < 2 ^ 32
          → counter code l.shared.status.response_count_by_code ≡ count_replies code l.sessions)
      × ((url : Bytes)
          → counter url l.shared.status.request_count_by_url ≡ occurrences url (answered_uris s))
unfolding lookup
main_counts sockets file_of host argv {w} {first} e s =
    let (config, f, at_start) = main-running sockets file_of host argv e in
    let (_, _, ((_, (_, urls, codes), _, _), _, _, _, _)) =
      init_server-IsSetUp sockets (new_server config) f refl in
    let (_, requests, _, _, _) = main-Steps sockets file_of host argv e s in
    let (consistent, _, _, _, _) = main-Steps sockets file_of host argv e start in
    let counts = Steps-Counts s consistent in
    let no_code : (code : ℕ) → by_code_of first.shared code ≡ 0 =
      λ code. ap (λ m. by_code_of m.shared code) at_start ∙ ap (counter code) codes in
    let no_url : (url : Bytes) → by_url_of first.shared url ≡ 0 =
      λ url. ap (λ m. by_url_of m.shared url) at_start ∙ ap (counter url) urls in
    let no_reply : (code : ℕ) → count_replies code first.sessions ≡ 0 =
      λ code. ap (λ m. count_replies code m.sessions) at_start in
    (
      requests,
      λ code small.
          omega (arith, counts.by_code code (omega (arith, small)), no_code code, no_reply code),
      λ url. omega (arith, counts.by_url url, no_url url),
    )
