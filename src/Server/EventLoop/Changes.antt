-- ===== src/Server/EventLoop/Changes.antt =====
-- What a step of `Server::run` does to the sessions.
use caviar_hacker_grid.Base.{ℕ, Bool, true, false, List, [], ◌∷◌, ◌++◌, some, ◌≡◌, refl, subst, sym}
use caviar_hacker_grid.Base.Run.{Run, done, throws, undefined, diverges}
use caviar_hacker_grid.Base.Text.{Bytes}
use caviar_hacker_grid.Handlers.Table.{HandlerConfiguration}
use caviar_hacker_grid.Server.EventLoop.{
  Phase, accepting, reading, blocked, closed, left_open, deleted, phase_of, set_phase, same,
  do_accept, do_write, after_read, read_done, Loop, Step, accept, read, Mode, race,
}
use caviar_hacker_grid.Server.Session.{Outside, Shared, Served, replied, silent, do_read}

-- How a read that goes on ends: the session gets a phase, by what `do_read` did.
pub data Ended (c : HandlerConfiguration) (l : Loop) (outside : Outside) (input : Bytes)
    : Phase → Shared → Type 0 where
  written :
      (text : Bytes) (w : Shared)
      → do_read outside c [] input l.shared ≡ done (replied text w)
      → Ended c l outside input (closed text) w
  unanswered :
      (w : Shared)
      → do_read outside c [] input l.shared ≡ done (silent w)
      → Ended c l outside input left_open w
  never : do_read outside c [] input l.shared ≡ diverges → Ended c l outside input blocked l.shared

abbrev pub to : ℕ → Loop → Phase → Shared → Loop
to i l p w = record { sessions = set_phase i p l.sessions; shared = w }

after_read-Ended :
    (c : HandlerConfiguration) (outside : Outside) (input : Bytes) (sent : Bool) (i : ℕ) (l : Loop)
    {l' : Loop} (r : Run Served)
    → do_read outside c [] input l.shared ≡ r
    → after_read sent i l r ≡ done l'
    → (p : Phase) × (w : Shared) × Ended c l outside input p w × (l' ≡ to i l p w)
unfolding after_read do_write
after_read-Ended c outside input true i l (done (replied text w)) d e =
    (closed text, w, written text w d, cc)
after_read-Ended c outside input false i l (done (replied text w)) d e = cc
after_read-Ended c outside input sent i l (done (silent w)) d e = (left_open, w, unanswered w d, cc)
after_read-Ended c outside input sent i l throws d e = cc
after_read-Ended c outside input sent i l undefined d e = cc
after_read-Ended c outside input sent i l diverges d e = (blocked, l.shared, never d, cc)

pub read_done-Ended :
    (c : HandlerConfiguration) (outside : Outside) (input : Bytes) (sent : Bool) (i : ℕ) (l : Loop)
    {l' : Loop}
    → read_done c outside input sent i l ≡ done l'
    → (p : Phase) × (w : Shared) × Ended c l outside input p w × (l' ≡ to i l p w)
unfolding read_done
read_done-Ended c outside input sent i l e =
    after_read-Ended c outside input sent i l (do_read outside c [] input l.shared) refl e

-- The sessions behind a step: one is handed on, and after an accept there is a new one.
pub data Change (ps : List Phase) : List Phase → Type 0 where
  accepted :
      (i : ℕ)
      → phase_of i ps ≡ some accepting
      → Change ps (set_phase i reading ps ++ accepting ∷ [])
  refused : (i : ℕ) → phase_of i ps ≡ some accepting → Change ps (set_phase i deleted ps)
  ended :
      (i : ℕ) (p : Phase)
      → phase_of i ps ≡ some reading
      → same accepting p ≡ false
      → same deleted p ≡ false
      → Change ps (set_phase i p ps)

Ended-others :
    {c : HandlerConfiguration} {l : Loop} {outside : Outside} {input : Bytes} {p : Phase}
    {w : Shared}
    → Ended c l outside input p w
    → (same accepting p ≡ false) × (same deleted p ≡ false)
Ended-others (written _ _ _) = (refl, refl)
Ended-others (unanswered _ _) = (refl, refl)
Ended-others (never _) = (refl, refl)

pub Step-Change :
    {c : HandlerConfiguration} {mode : Mode} {l l' : Loop}
    → Step c mode l l'
    → Change l.sessions l'.sessions
unfolding do_accept
Step-Change (accept i false t e) = accepted i e
Step-Change (accept i true t e) = refused i e
Step-Change {c} {l = l} (read i outside input sent t e d) =
    let (p, w, x, f) = read_done-Ended c outside input sent i l d in
    let (a, b) = Ended-others x in
    subst (λ m. Change l.sessions m.sessions) (sym f) (ended i p e a b)
Step-Change {c} {l = l} (race i outside input sent seen left o t e d) =
    let (p, w, x, f) = read_done-Ended c outside input sent i (record l { shared = seen }) d in
    let (a, b) = Ended-others x in
    subst (λ m. Change l.sessions m.sessions) (sym f) (ended i p e a b)
