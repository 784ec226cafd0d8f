-- ===== src/Server/Runs.antt =====
-- The life of a server: sessions one after the other, from the state that `Init` leaves. Each session
-- may find other files, other commands and another network outside.
use caviar_hacker_grid.Base.{ℕ, ◌+◌, true, [], ◌≡◌, ◌∙◌, refl, ap, sym, arith}
use caviar_hacker_grid.Base.Run.{done}
use caviar_hacker_grid.Base.Text.{Bytes}
use caviar_hacker_grid.Config.{Config}
use caviar_hacker_grid.Handlers.Cloud.{Host}
use caviar_hacker_grid.Handlers.Files.{FileSystem}
use caviar_hacker_grid.Handlers.Table.{HandlerConfiguration}
use caviar_hacker_grid.Server.Session.{Outside, Shared, Served, do_read}
use caviar_hacker_grid.Server.Session.Serving.{
  state_of, answers, Counted, answered, unanswered, do_read-Counted, do_read-IsConsistent,
}
use caviar_hacker_grid.Server.Status as ServerStatus
use caviar_hacker_grid.Server.Ports.{Sockets}
use caviar_hacker_grid.Server.Status.{new_status, log_incoming_request}
use caviar_hacker_grid.Server.Status.Counts.{IsConsistent}
use caviar_hacker_grid.Server.WebServer.{WebServer, new_server, init_server}
use caviar_hacker_grid.Server.WebServer.Setup.{keys, NoRequests, init_server-IsSetUp}

-- The states that sessions reach from a first one, with the number of replies written. Between two
-- sessions, the files may change.
pub data Reached (c : HandlerConfiguration) (first : Shared) : ℕ → Shared → Type 0 where
  no_session : Reached c first 0 first
  files_change :
      {n : ℕ} {w : Shared} (files : FileSystem)
      → Reached c first n w
      → Reached c first n (record w { host = record (w.host) { files = files } })
  session :
      {n : ℕ} {w : Shared} (outside : Outside) (input : Bytes) (served : Served)
      → Reached c first n w
      → do_read outside c [] input w ≡ done served
      → Reached c first (n + answers served) (state_of served)

Counted-paths :
    {input : Bytes} (w : Shared) {served : Served}
    → Counted input w served
    → (state_of served).status.request_handlers ≡ w.status.request_handlers
unfolding log_incoming_request
Counted-paths w (answered _ _ _ _ _ e _) = ap (λ s. s.request_handlers) e
Counted-paths w unanswered = refl

-- What is kept from the first state on.
Reached-kept :
    {c : HandlerConfiguration} {first : Shared} {n : ℕ} {w : Shared}
    → Reached c first n w
    → IsConsistent first.status
    → IsConsistent w.status
      × (w.status.requests ≡ first.status.requests + n)
      × (w.status.request_handlers ≡ first.status.request_handlers)
Reached-kept no_session v = (v, omega arith, refl)
Reached-kept (files_change files r) v = Reached-kept r v
Reached-kept {c} (session {w} outside input served r e) v =
    let (consistent, counted, paths) = Reached-kept r v in
    let (consistent', counted') = do_read-IsConsistent outside c input w served e consistent in
    (
      consistent',
      omega (arith, counted, counted'),
      Counted-paths w (do_read-Counted outside c input w served e) ∙ paths,
    )

NoRequests-IsConsistent : (s : ServerStatus.Status) → NoRequests s → IsConsistent s
NoRequests-IsConsistent s (none, urls, codes) = record {
  urls_sorted = rw urls tt;
  codes_sorted = rw codes tt;
  urls_total = rw (urls, none) refl;
  codes_total = rw (codes, none) refl;
}

-- Once `Init` has accepted the configuration of a new server, in every state that sessions reach, the
-- counters add up to the number of requests, which is the number of replies written, and the status
-- lists the paths of the table that the sessions find their handlers in.
pub init_server-Reached :
    (sockets : Sockets) (config : Config) (host : Host) {server : WebServer} {n : ℕ} {w : Shared}
    → init_server sockets (new_server config) ≡ done (true, server)
    → Reached server.handler_mapping (record { status = server.status; host = host }) n w
    → IsConsistent w.status
      × (w.status.requests ≡ n)
      × (keys server.handler_mapping.request_handlers ≡ keys w.status.request_handlers)
init_server-Reached sockets config host {server} e r =
    let (port, _, ((_, none, _, paths), _, _, _, _)) =
      init_server-IsSetUp sockets (new_server config) e refl in
    let (consistent, counted, kept) = Reached-kept r (NoRequests-IsConsistent server.status none) in
    (consistent, omega (arith, counted, none.0), paths ∙ ap keys (sym kept))
