-- ===== src/Server/Main/Life.antt =====
-- The program from its start on.
use caviar_hacker_grid.Base.{
  ℕ, ◌+◌, ◌≤◌, true, false, List, [], ◌∷◌, Option, none, some, ◌≡◌, refl, sym, ◌∙◌, arith, Bool,
  ◌≢◌, Bool-cases, inl, inr, if◌then◌else◌, subst, ap, ◌==◌, Bool,
}
use caviar_hacker_grid.Base.Run.{Run, done, undefined, throws, diverges, >>=-eq-done, ◌>>=◌}
use caviar_hacker_grid.Base.StdMap.{lookup}
use caviar_hacker_grid.Base.StdMap.Keys.{int_order, text_order}
use caviar_hacker_grid.Base.Text.{Bytes}
use caviar_hacker_grid.Config.{Config, node, nil}
use caviar_hacker_grid.Config.Parser as Parser
use caviar_hacker_grid.Handlers.Cloud.{Host}
use caviar_hacker_grid.Handlers.Table.{HandlerConfiguration}
use caviar_hacker_grid.Server.EventLoop.Phases.{count-phase_of}
use caviar_hacker_grid.Server.EventLoop.{
  Loop, new_loop, Steps, count, deleted, accepting, reading, blocked, Step, accept, read,
  count_closed, serial, Mode, race,
}
use caviar_hacker_grid.Server.EventLoop.Accepting.{Steps-one}
use caviar_hacker_grid.Server.EventLoop.Sessions.{Steps-Reached}
use caviar_hacker_grid.Server.Main.{exited, running, run_server, run_main, main, exit_code}
use caviar_hacker_grid.Server.Ports.{Sockets, port_valid, unsigned_short}
use caviar_hacker_grid.Server.Runs.{init_server-Reached}
use caviar_hacker_grid.Server.Session.{Shared}
use caviar_hacker_grid.Server.Status.Counts.{IsConsistent, lookup-total}
use caviar_hacker_grid.Server.WebServer.{WebServer, new_server, init_server, start}
use caviar_hacker_grid.Server.WebServer.Setup.{keys}

run_main-running :
    (sockets : Sockets) (host : Host) (server : Option WebServer) {w : WebServer} {l : Loop}
    → run_main sockets host server ≡ running w l
    → (server ≡ some w) × (l ≡ new_loop (record { status = w.status; host = host }))
unfolding run_main run_server
run_main-running sockets host none e = cc
run_main-running sockets host (some v) e = elim (Bool-cases (port_valid sockets v.port == 0)) [
  | inl p ↦ elim (Bool-cases (sockets.listen_error (unsigned_short v.port) == 0)) [
    | inl q ↦
        let f : run_main sockets host (some v)
            ≡ running v (new_loop (record { status = v.status; host = host })) =
          rw (run_main, run_server, p, q) refl in
        (cc, cc)
    | inr q ↦
        let f : run_main sockets host (some v) ≡ exited 1 = rw (run_main, run_server, p, q) refl in
        cc
  ]
  | inr p ↦
      let f : run_main sockets host (some v) ≡ exited 1 = rw (run_main, run_server, p) refl in cc
]

data OutcomeOf (o : Parser.Outcome) : Type 0 where
  as_returned : (ok : Bool) (config : Config) → o ≡ Parser.returned ok config → OutcomeOf o
  as_undefined : o ≡ Parser.undefined → OutcomeOf o
  as_out_of_rounds : o ≡ Parser.out_of_rounds → OutcomeOf o

Outcome-cases : (o : Parser.Outcome) → OutcomeOf o
Outcome-cases (Parser.returned ok config) = as_returned ok config refl
Outcome-cases Parser.undefined = as_undefined refl
Outcome-cases Parser.out_of_rounds = as_out_of_rounds refl

accepted :
    (m : Run (Bool × WebServer)) {w : WebServer}
    → (m >>= λ result. done (if result.0 then some result.1 else none)) ≡ done (some w)
    → m ≡ done (true, w)
accepted (done (true, v)) {w} e = let f : v ≡ w = cc in rw f refl
accepted (done (false, v)) e = cc
accepted throws e = cc
accepted undefined e = cc
accepted diverges e = cc

-- A server that runs is one that `Init` has accepted.
start-init_server :
    (sockets : Sockets) (file : Option Bytes) {w : WebServer}
    → start sockets file ≡ done (some w)
    → (config : Config) × (init_server sockets (new_server config) ≡ done (true, w))
unfolding start
start-init_server sockets file {w} e = elim (Outcome-cases (Parser.parse_file file (node [] nil))) [
  | as_returned ok config p ↦ elim (Bool-cases ok) [
    | inl t ↦ (
      config,
      accepted (init_server sockets (new_server config)) (sym (rw (start, p, t) refl) ∙ e),
    )
    | inr t ↦ let f : start sockets file ≡ done none = rw (start, p, t) refl in cc
  ]
  | as_undefined p ↦ let f : start sockets file ≡ undefined = rw (start, p) refl in cc
  | as_out_of_rounds p ↦ let f : start sockets file ≡ undefined = rw (start, p) refl in cc
]

pub main-running :
    (sockets : Sockets) (file_of : Bytes → Option Bytes) (host : Host) (argv : List Bytes)
    {w : WebServer} {l : Loop}
    → main sockets file_of host argv ≡ done (running w l)
    → (config : Config) × (init_server sockets (new_server config) ≡ done (true, w))
      × (l ≡ new_loop (record { status = w.status; host = host }))
unfolding main
main-running sockets file_of host [] e = cc
main-running sockets file_of host (a ∷ []) e = cc
main-running sockets file_of host (a ∷ path ∷ []) {w} {l} e =
    let (server, f, g) = >>=-eq-done (start sockets (file_of path)) _ e in
    let (h, i) = run_main-running sockets host server {w = w} {l = l} cc in
    let (config, j) = start-init_server sockets (file_of path) (f ∙ ap done h) in (config, j, i)
main-running sockets file_of host (a ∷ b ∷ c ∷ argv) e = cc

-- In every state that a server which `main` has started reaches by callbacks that do not overlap
-- (those of handlers that never end aside), with accepts and reads in any order, the number of
-- requests is that of the connections closed after a reply, each counter is at most this number, the
-- counters of each map add up to it, and the status lists the paths that the sessions find their
-- handlers under.
pub main-Steps :
    (sockets : Sockets) (file_of : Bytes → Option Bytes) (host : Host) (argv : List Bytes)
    {w : WebServer} {first l : Loop}
    → main sockets file_of host argv ≡ done (running w first)
    → Steps w.handler_mapping serial first l
    → IsConsistent l.shared.status
      × (l.shared.status.requests ≡ count_closed l.sessions)
      × ((url : Bytes) (n : ℕ)
          → lookup url l.shared.status.request_count_by_url ≡ some n
          → n ≤ count_closed l.sessions)
      × ((code n : ℕ)
          → lookup code l.shared.status.response_count_by_code ≡ some n
          → n ≤ count_closed l.sessions)
      × (keys w.handler_mapping.request_handlers ≡ keys l.shared.status.request_handlers)
main-Steps sockets file_of host argv {w} {l} e s =
    let (config, f, g) = main-running sockets file_of host argv e in
    let r = Steps-Reached (subst (λ m. Steps w.handler_mapping serial m l) g s) in
    let (consistent, requests, paths) = init_server-Reached sockets config host f r in
    (
      consistent,
      requests,
      λ url n h. omega (
        arith,
        lookup-total url n l.shared.status.request_count_by_url h,
        consistent.urls_total,
        requests,
      ),
      λ code n h. omega (
        arith,
        lookup-total code n l.shared.status.response_count_by_code h,
        consistent.codes_total,
        requests,
      ),
      paths,
    )

outstanding :
    {c : HandlerConfiguration} {mode : Mode} {l l' : Loop}
    → Step c mode l l'
    → count accepting l.sessions + (count reading l.sessions + count blocked l.sessions) ≢ 0
outstanding {l = l} (accept i _ _ e) =
    λ h. count-phase_of accepting i l.sessions refl e (omega (arith, h))
outstanding {l = l} (read i _ _ _ _ e _) =
    λ h. count-phase_of reading i l.sessions refl e (omega (arith, h))
outstanding {l = l} (race i _ _ _ _ _ _ _ e _) =
    λ h. count-phase_of reading i l.sessions refl e (omega (arith, h))

-- `main` returns 0 only once an accept has failed and no callback is left to run.
pub exit_code_lem :
    {c : HandlerConfiguration} {mode : Mode} {first : Shared} {l : Loop}
    → Steps c mode (new_loop first) l
    → exit_code l ≡ some 0
    → (count deleted l.sessions ≡ 1) × ((l' : Loop) → Step c mode l l' → ⊥)
unfolding exit_code
exit_code_lem {l} s e =
    let zero : count accepting l.sessions + (count reading l.sessions + count blocked l.sessions)
        ≡ 0 =
      ground arith in
    (omega (arith, zero, Steps-one s), λ l' t. outstanding t zero)
