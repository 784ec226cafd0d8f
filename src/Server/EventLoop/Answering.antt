-- ===== src/Server/EventLoop/Answering.antt =====
-- A connection to a server that still accepts is answered.
use caviar_hacker_grid.Base.{ℕ, suc, false, true, [], ◌∷◌, some, ◌≡◌, refl, arith}
use caviar_hacker_grid.Base.Run.{done}
use caviar_hacker_grid.Base.Text.{Bytes}
use caviar_hacker_grid.Handlers.Table.{HandlerConfiguration}
use caviar_hacker_grid.Server.EventLoop.{
  accepting, reading, blocked, closed, deleted, phase_of, set_phase, count, do_accept, Loop,
  new_loop, HasThread, accept, read, read_done, after_read, do_write, Steps, start, further,
  count_closed, Mode,
}
use caviar_hacker_grid.Server.EventLoop.Accepting.{Steps-one}
use caviar_hacker_grid.Server.EventLoop.Phases.{phase_of-count, phase_of-append, phase_of-set_phase}
use caviar_hacker_grid.Server.EventLoop.Sessions.{count-do_accept, count-ended}
use caviar_hacker_grid.Server.Session.{Outside, Shared, replied, do_read}

read_done-replied :
    (c : HandlerConfiguration) (outside : Outside) (input text : Bytes) (i : ℕ) (l : Loop)
    (w : Shared)
    → do_read outside c [] input l.shared ≡ done (replied text w)
    → read_done c outside input true i l
      ≡ done (record { sessions = set_phase i (closed text) l.sessions; shared = w })
unfolding read_done after_read do_write
read_done-replied c outside input text i l w e = rw (read_done, e) refl

-- While no accept has failed and a thread is left, a client can connect; if `do_read` has a reply to
-- the bytes that come first from there, then that reply is written, the connection is closed, and the
-- counters are those that `do_read` leaves.
pub Steps_answer :
    {c : HandlerConfiguration} {mode : Mode} {first : Shared} {l : Loop} (outside : Outside)
    (input text : Bytes) (w : Shared)
    → Steps c mode (new_loop first) l
    → HasThread l
    → count deleted l.sessions ≡ 0
    → do_read outside c [] input l.shared ≡ done (replied text w)
    → (l' : Loop) × Steps c mode l l'
      × (l'.shared ≡ w)
      × ((i : ℕ) × (phase_of i l'.sessions ≡ some (closed text)))
      × (count_closed l'.sessions ≡ suc (count_closed l.sessions))
      × HasThread l'
unfolding do_accept
Steps_answer {c} {l = l} outside input text w s t none e =
    let one = Steps-one s in
    let (i, at) = phase_of-count l.sessions (λ h. omega (arith, h, none, one)) in
    let m : Loop = record l { sessions = do_accept i false l.sessions } in
    let same_blocked = count-do_accept blocked i false l.sessions refl refl refl at in
    let same_closed = count-do_accept (closed []) i false l.sessions refl refl refl at in
    let reads : phase_of i m.sessions ≡ some reading =
      phase_of-append i reading (set_phase i reading l.sessions) (accepting ∷ [])
        (phase_of-set_phase i reading accepting l.sessions at) in
    let free : HasThread m = omega (arith, t, same_blocked) in
    (
      record { sessions = set_phase i (closed text) m.sessions; shared = w },
      further (further start (accept i false t at))
          (read i outside input true free reads (read_done-replied c outside input text i m w e)),
      refl,
      (i, phase_of-set_phase i (closed text) reading m.sessions reads),
      omega (arith, count-ended (closed text) (closed []) i m.sessions refl reads, same_closed),
      omega (arith, count-ended (closed text) blocked i m.sessions refl reads, free),
    )
