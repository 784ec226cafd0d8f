-- ===== src/Server/EventLoop/Sessions.antt =====
-- Without overlapping callbacks, what the sessions of `Server::run` share is what sessions one after the
-- other would leave, and each reply written is a connection closed.
use caviar_hacker_grid.Base.{
  ℕ, ◌+◌, ◌≤◌, Bool, true, false, List, [], ◌∷◌, some, ◌≡◌, refl, arith, subst, sym, ap, ◌≢◌,
}
use caviar_hacker_grid.Handlers.Table.{HandlerConfiguration}
use caviar_hacker_grid.Server.EventLoop.{
  Phase, accepting, reading, blocked, closed, left_open, deleted, phase_of, set_phase, one_if, same,
  count, do_accept, Loop, new_loop, num_of_threads, Step, accept, read, Steps, start, further,
  count_closed, Bytes, serial, Mode, race, overlapping, HasThread, read_done, done,
}
use caviar_hacker_grid.Server.EventLoop.Changes.{Ended, written, unanswered, never, read_done-Ended}
use caviar_hacker_grid.Server.EventLoop.Phases.{count-append, count-set_phase}
use caviar_hacker_grid.Server.Runs.{Reached, no_session, session}
use caviar_hacker_grid.Server.Session.{Outside, Shared}

pub count-do_accept :
    (p : Phase) (i : ℕ) (error : Bool) (ps : List Phase)
    → same p reading ≡ false
    → same p accepting ≡ false
    → same p deleted ≡ false
    → phase_of i ps ≡ some accepting
    → count p (do_accept i error ps) ≡ count p ps
unfolding do_accept count
count-do_accept p i true ps r a d e =
    omega (arith, count-set_phase p deleted accepting i ps e, ap one_if a, ap one_if d)
count-do_accept p i false ps r a d e = omega (
  arith,
  count-append p (set_phase i reading ps) (accepting ∷ []),
  count-set_phase p reading accepting i ps e,
  ap one_if a,
  ap one_if r,
)

pub count-ended :
    (p q : Phase) (i : ℕ) (ps : List Phase)
    → same q reading ≡ false
    → phase_of i ps ≡ some reading
    → count q (set_phase i p ps) ≡ count q ps + one_if (same q p)
count-ended p q i ps r e = omega (arith, count-set_phase q p reading i ps e, ap one_if r)

one_if_bound : (b : Bool) → one_if b ≤ 1
one_if_bound b = ground arith

pub serial_ne : serial ≢ overlapping
serial_ne e = cc

-- A session that ends blocks one thread more at most.
Ended-few :
    (c : HandlerConfiguration) (outside : Outside) (input : Bytes) (sent : Bool) (i : ℕ) (l : Loop)
    {l' : Loop}
    → HasThread l
    → phase_of i l.sessions ≡ some reading
    → read_done c outside input sent i l ≡ done l'
    → count blocked l'.sessions ≤ num_of_threads
Ended-few c outside input sent i l t e d =
    let (p, w, x, f) = read_done-Ended c outside input sent i l d in
    subst (λ k. count blocked k.sessions ≤ num_of_threads) (sym f)
      (omega (arith, t, count-ended p blocked i l.sessions refl e, one_if_bound (same blocked p)))

Step_few :
    {c : HandlerConfiguration} {mode : Mode} {l l' : Loop}
    → Step c mode l l'
    → count blocked l'.sessions ≤ num_of_threads
Step_few {l = l} (accept i error t e) =
    omega (arith, t, count-do_accept blocked i error l.sessions refl refl refl e)
Step_few {c} {l = l} (read i outside input sent t e d) = Ended-few c outside input sent i l t e d
Step_few {c} {l = l} (race i outside input sent seen left o t e d) =
    Ended-few c outside input sent i (record l { shared = seen }) t e d

-- No more handlers are blocked than there are threads.
pub Steps_few :
    {c : HandlerConfiguration} {mode : Mode} {first : Shared} {l : Loop}
    → Steps c mode (new_loop first) l
    → count blocked l.sessions ≤ num_of_threads
unfolding count
Steps_few start = omega arith
Steps_few (further s t) = Step_few t

module _ {c : HandlerConfiguration} {first : Shared} where
  Ended-Reached :
      (i : ℕ) (l : Loop) {outside : Outside} {input : Bytes} {p : Phase} {w : Shared}
      → Ended c l outside input p w
      → phase_of i l.sessions ≡ some reading
      → Reached c first (count_closed l.sessions) l.shared
      → Reached c first (count_closed (set_phase i p l.sessions)) w
  Ended-Reached i l {outside} {input} {p} {w} (written text _ d) e r =
      subst (λ n. Reached c first n w)
        (sym (count-ended (closed text) (closed []) i l.sessions refl e))
        (session outside input _ r d)
  Ended-Reached i l {outside} {input} {p} {w} (unanswered _ d) e r =
      subst (λ n. Reached c first n w) (sym (count-ended left_open (closed []) i l.sessions refl e))
        (session outside input _ r d)
  Ended-Reached i l {outside} {input} {p} {w} (never _) e r =
      subst (λ n. Reached c first n w)
        (omega (arith, count-ended blocked (closed []) i l.sessions refl e)) r

  Step-Reached :
      {l l' : Loop}
      → Step c serial l l'
      → Reached c first (count_closed l.sessions) l.shared
      → Reached c first (count_closed l'.sessions) l'.shared
  Step-Reached {l} (accept i error t e) r =
      subst (λ n. Reached c first n l.shared)
        (sym (count-do_accept (closed []) i error l.sessions refl refl refl e)) r
  Step-Reached {l} (read i outside input sent t e d) r =
      let (p, w, x, f) = read_done-Ended c outside input sent i l d in
      subst (λ m. Reached c first (count_closed m.sessions) m.shared) (sym f)
        (Ended-Reached i l x e r)
  Step-Reached (race _ _ _ _ _ _ o _ _ _) r = absurd (serial_ne o)

  -- If no callbacks overlap, what the sessions share is what some sequence of sessions, one after the
  -- other, leaves; its replies are as many as the connections closed.
  pub Steps-Reached :
      {l : Loop}
      → Steps c serial (new_loop first) l
      → Reached c first (count_closed l.sessions) l.shared
  unfolding count
  Steps-Reached start = no_session
  Steps-Reached (further s t) = Step-Reached t (Steps-Reached s)
