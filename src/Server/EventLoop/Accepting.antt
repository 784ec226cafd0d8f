-- ===== src/Server/EventLoop/Accepting.antt =====
-- The accepts of `Server`: there is one outstanding until one fails.
use caviar_hacker_grid.Base.{
  ℕ, ◌+◌, ◌≤◌, List, [], ◌∷◌, ◌++◌, some, ◌≡◌, ◌≢◌, refl, arith, length, ap, ◌∙◌,
}
use caviar_hacker_grid.Handlers.Table.{HandlerConfiguration}
use caviar_hacker_grid.Server.EventLoop.{
  Phase, accepting, reading, deleted, phase_of, set_phase, one_if, same, count, Loop, new_loop,
  Steps, start, further, Mode,
}
use caviar_hacker_grid.Server.EventLoop.Changes.{Change, accepted, refused, ended, Step-Change}
use caviar_hacker_grid.Server.EventLoop.Phases.{
  count-append, count-set_phase, length-set_phase, count-phase_of,
}
use caviar_hacker_grid.Server.Session.{Shared}

count-accepted :
    (p : Phase) (i : ℕ) (ps : List Phase)
    → phase_of i ps ≡ some accepting
    → count p (set_phase i reading ps ++ accepting ∷ []) ≡ count p ps + one_if (same p reading)
unfolding count
count-accepted p i ps e = omega (
  arith,
  count-append p (set_phase i reading ps) (accepting ∷ []),
  count-set_phase p reading accepting i ps e,
)

-- Each accept leaves one session that waits or that was deleted.
Change-one :
    {ps qs : List Phase}
    → Change ps qs
    → count accepting qs + count deleted qs ≡ count accepting ps + count deleted ps
Change-one {ps} (accepted i e) =
    omega (arith, count-accepted accepting i ps e, count-accepted deleted i ps e)
Change-one {ps} (refused i e) = omega (
  arith,
  count-set_phase accepting deleted accepting i ps e,
  count-set_phase deleted deleted accepting i ps e,
)
Change-one {ps} (ended i p e a d) = omega (
  arith,
  count-set_phase accepting p reading i ps e,
  count-set_phase deleted p reading i ps e,
  ap one_if a,
  ap one_if d,
)

Change-deleted : {ps qs : List Phase} → Change ps qs → count deleted ps ≤ count deleted qs
Change-deleted {ps} (accepted i e) = omega (arith, count-accepted deleted i ps e)
Change-deleted {ps} (refused i e) = omega (arith, count-set_phase deleted deleted accepting i ps e)
Change-deleted {ps} (ended i p e a d) =
    omega (arith, count-set_phase deleted p reading i ps e, ap one_if d)

-- With no accept outstanding, no session is made.
Change-length : {ps qs : List Phase} → Change ps qs → count accepting ps ≡ 0 → length qs ≡ length ps
Change-length {ps} (accepted i e) h = absurd (count-phase_of accepting i ps refl e h)
Change-length {ps} (refused i e) h = length-set_phase i deleted ps
Change-length {ps} (ended i p e a d) h = length-set_phase i p ps

pub Steps-append :
    {c : HandlerConfiguration} {mode : Mode} {k l m : Loop}
    → Steps c mode k l
    → Steps c mode l m
    → Steps c mode k m
Steps-append s start = s
Steps-append s (further t u) = further (Steps-append s t) u

module _ {c : HandlerConfiguration} {mode : Mode} {first : Shared} where
  pub Steps-one :
      {l : Loop}
      → Steps c mode (new_loop first) l
      → count accepting l.sessions + count deleted l.sessions ≡ 1
  unfolding count
  Steps-one start = refl
  Steps-one (further s t) = Change-one (Step-Change t) ∙ Steps-one s

  -- Once an accept has failed, the server has deleted one session and makes no other: whatever happens
  -- from there on, no connection is accepted any more.
  pub Steps_no_accept :
      {l l' : Loop}
      → Steps c mode (new_loop first) l
      → count deleted l.sessions ≢ 0
      → Steps c mode l l'
      → (count accepting l'.sessions ≡ 0)
        × (count deleted l'.sessions ≡ 1)
        × (length l'.sessions ≡ length l.sessions)
  Steps_no_accept s h start = (omega (arith, Steps-one s, h), omega (arith, Steps-one s, h), refl)
  Steps_no_accept {l} s h (further {m} t u) =
      let (a, b, e) = Steps_no_accept s h t in
      let one = Steps-one (further (Steps-append s t) u) in
      let kept = Change-deleted (Step-Change u) in
      (
        omega (arith, one, kept, b),
        omega (arith, one, kept, b),
        Change-length (Step-Change u) a ∙ e,
      )
