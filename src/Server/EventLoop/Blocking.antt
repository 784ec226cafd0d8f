-- ===== src/Server/EventLoop/Blocking.antt =====
-- Requests to a handler that never ends take the threads of `Server::run` one by one.
use caviar_hacker_grid.Base.{
  ℕ, zero, suc, ◌+◌, ◌-◌, false, true, [], ◌∷◌, some, ◌≡◌, ◌∙◌, refl, arith, ap,
}
use caviar_hacker_grid.Base.Run.{done, diverges}
use caviar_hacker_grid.Base.Text.{Bytes}
use caviar_hacker_grid.Handlers.{blocking_handler}
use caviar_hacker_grid.Handlers.Table.{HandlerConfiguration, find_longest_handler_key}
use caviar_hacker_grid.Http.Request.{Request, parsed, parse}
use caviar_hacker_grid.Server.EventLoop.{
  accepting, reading, blocked, deleted, phase_of, set_phase, count, do_accept, Loop, new_loop,
  HasThread, num_of_threads, Step, accept, read, read_done, after_read, Steps, start, further, Mode,
  race,
}
use caviar_hacker_grid.Server.EventLoop.Accepting.{Steps-one, Steps-append}
use caviar_hacker_grid.Server.EventLoop.Phases.{
  phase_of-count, phase_of-append, phase_of-set_phase, count-set_phase, count-append,
}
use caviar_hacker_grid.Server.EventLoop.Sessions.{count-do_accept, count-ended, Steps_few}
use caviar_hacker_grid.Server.Session.{Outside, Shared, do_read, handle_request, handler_for}

pub do_read-blocking :
    (outside : Outside) (c : HandlerConfiguration) (input : Bytes) (w : Shared) (request : Request)
    → parse input ≡ parsed request
    → handler_for c (find_longest_handler_key request.request_uri c.request_handlers)
      ≡ some blocking_handler
    → do_read outside c [] input w ≡ diverges
unfolding do_read handle_request
do_read-blocking outside c input w request p h = rw (do_read, p, h) refl

read_done-diverges :
    (c : HandlerConfiguration) (outside : Outside) (input : Bytes) (i : ℕ) (l : Loop)
    → do_read outside c [] input l.shared ≡ diverges
    → read_done c outside input true i l
      ≡ done (record l { sessions = set_phase i blocked l.sessions })
unfolding read_done after_read
read_done-diverges c outside input i l e = rw (read_done, e) refl

Step-HasThread :
    {c : HandlerConfiguration} {mode : Mode} {l m : Loop} → Step c mode l m → HasThread l
Step-HasThread (accept i error t e) = t
Step-HasThread (read i outside input sent t e d) = t
Step-HasThread (race i outside input sent seen left o t e d) = t

module _ {c : HandlerConfiguration} {mode : Mode} {first : Shared} (outside : Outside)
    (input : Bytes) where
  -- One more connection, and one thread less.
  Steps_block_one :
      {l : Loop}
      → Steps c mode (new_loop first) l
      → HasThread l
      → count deleted l.sessions ≡ 0
      → do_read outside c [] input l.shared ≡ diverges
      → (l' : Loop) × Steps c mode l l'
        × (l'.shared ≡ l.shared)
        × (count blocked l'.sessions ≡ suc (count blocked l.sessions))
        × (count deleted l'.sessions ≡ 0)
  unfolding do_accept count
  Steps_block_one {l} s t none e =
      let one = Steps-one s in
      let (i, at) = phase_of-count l.sessions (λ h. omega (arith, h, none, one)) in
      let m : Loop = record l { sessions = do_accept i false l.sessions } in
      let same_blocked = count-do_accept blocked i false l.sessions refl refl refl at in
      let reads : phase_of i m.sessions ≡ some reading =
        phase_of-append i reading (set_phase i reading l.sessions) (accepting ∷ [])
          (phase_of-set_phase i reading accepting l.sessions at) in
      let free : HasThread m = omega (arith, t, same_blocked) in
      (
        record m { sessions = set_phase i blocked m.sessions },
        further (further start (accept i false t at))
            (read i outside input true free reads (read_done-diverges c outside input i m e)),
        refl,
        omega (arith, count-ended blocked blocked i m.sessions refl reads, same_blocked),
        omega (
          arith,
          none,
          count-ended blocked deleted i m.sessions refl reads,
          count-append deleted (set_phase i reading l.sessions) (accepting ∷ []),
          count-set_phase deleted reading accepting i l.sessions at,
        ),
      )

  block_all :
      (n : ℕ) {l : Loop}
      → Steps c mode (new_loop first) l
      → count blocked l.sessions + n ≡ num_of_threads
      → count deleted l.sessions ≡ 0
      → do_read outside c [] input l.shared ≡ diverges
      → (l' : Loop) × Steps c mode l l'
        × (l'.shared ≡ l.shared)
        × (count blocked l'.sessions ≡ num_of_threads)
  block_all zero {l} s h none e = (l, start, refl, omega (arith, h))
  block_all (suc n) {l} s h none e =
      let (m, t, same, grown, none') = Steps_block_one s (omega (arith, h)) none e in
      let (l', u, same', all) =
        block_all n (Steps-append s t) (omega (arith, h, grown)) none'
          (ap (λ w. do_read outside c [] input w) same ∙ e) in
      (l', Steps-append t u, same' ∙ same, all)

  -- While no accept has failed, clients whose request goes to a handler that never ends can take every
  -- thread: no session is served any more, nor is a connection accepted, and the program goes on.
  pub Steps_block :
      {l : Loop}
      → Steps c mode (new_loop first) l
      → count deleted l.sessions ≡ 0
      → do_read outside c [] input l.shared ≡ diverges
      → (l' : Loop) × Steps c mode l l'
        × (l'.shared ≡ l.shared)
        × (count blocked l'.sessions ≡ num_of_threads)
        × ((m : Loop) → Step c mode l' m → ⊥)
  Steps_block {l} s none e =
      let few = Steps_few s in
      let (l', t, same, all) =
        block_all (num_of_threads - count blocked l.sessions) s (omega (arith, few)) none e in
      (l', t, same, all, λ m step. absurd (omega (arith, Step-HasThread step, all)))
