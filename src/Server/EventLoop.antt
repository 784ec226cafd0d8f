-- ===== src/Server/EventLoop.antt =====
-- server/server.h and server/server.cc: `Session::start`, `Session::do_write` and `Server`. The
-- sessions stand in the order of their creation, each with the callback that is outstanding on it.
-- The sockets are a parameter: when an accept fails, which bytes a read brings and whether a write
-- succeeds is for each step to say.
pub mod Phases
pub mod Changes
pub mod Accepting
pub mod Sessions
pub mod Answering
pub mod Blocking
pub mod Counting
pub mod Tallied
use caviar_hacker_grid.Base.{
  ℕ, zero, suc, ◌+◌, ◌<◌, Bool, true, false, List, [], ◌∷◌, ◌++◌, Option, none, some, ◌≡◌,
}
use caviar_hacker_grid.Base.Run.{Run, done, throws, undefined, diverges, ◌>>=◌}
use caviar_hacker_grid.Base.Text.{Bytes}
use caviar_hacker_grid.Handlers.Table.{HandlerConfiguration}
use caviar_hacker_grid.Server.Session.{Outside, Shared, Served, replied, silent, do_read}

-- Where a session is: given to `async_accept`, to `async_read_until`, in a handler that never ends, at
-- the end of a `do_read` that writes nothing, behind its `delete`, or behind `do_write`, with the
-- bytes that it has written.
pub data Phase : Type 0 where
  accepting reading blocked left_open deleted : Phase
  closed : Bytes → Phase

abbrev pub phase_of : ℕ → List Phase → Option Phase
phase_of i [] = none
phase_of zero (p ∷ ps) = some p
phase_of (suc i) (p ∷ ps) = phase_of i ps

abbrev pub set_phase : ℕ → Phase → List Phase → List Phase
set_phase i q [] = []
set_phase zero q (p ∷ ps) = q ∷ ps
set_phase (suc i) q (p ∷ ps) = p ∷ set_phase i q ps

-- `new Session`, given to `async_accept`.
abbrev pub async_accept : List Phase → List Phase
async_accept ps = ps ++ accepting ∷ []

-- `Session::start`. The callback of `async_read_until` takes no error, so that it reads whatever the
-- buffer holds, also after an end of the stream.
abbrev pub start_session : ℕ → List Phase → List Phase
start_session i = set_phase i reading

-- `Server::do_accept`, with the session accepted and whether there was an error.
unfoldable pub do_accept : ℕ → Bool → List Phase → List Phase
do_accept i false ps = async_accept (start_session i ps)
do_accept i true ps = set_phase i deleted ps

-- `Session::do_write`: a write that fails throws; else all of the text is written, and the socket is
-- shut down and closed.
unfoldable pub do_write : Bytes → Bool → Run Phase
do_write resp true = done (closed resp)
do_write resp false = throws

pub record Loop : Type 0 where
  pub sessions : List Phase
  pub shared : Shared

-- The constructor of `Server`.
abbrev pub new_loop : Shared → Loop
new_loop w = record { sessions = async_accept []; shared = w }

-- What becomes of a session whose `do_read` ends.
unfoldable pub after_read : Bool → ℕ → Loop → Run Served → Run Loop
unfolding do_write
after_read sent i l (done (replied text w)) = do_write text sent >>= λ phase.
    done (record { sessions = set_phase i phase l.sessions; shared = w })
after_read sent i l (done (silent w)) =
    done (record { sessions = set_phase i left_open l.sessions; shared = w })
after_read sent i l throws = throws
after_read sent i l undefined = undefined
after_read sent i l diverges = done (record l { sessions = set_phase i blocked l.sessions })

-- The callback of a read.
unfoldable pub read_done : HandlerConfiguration → Outside → Bytes → Bool → ℕ → Loop → Run Loop
unfolding do_read after_read
read_done c outside input sent i l = after_read sent i l (do_read outside c [] input l.shared)

abbrev pub one_if : Bool → ℕ
one_if true = 1
one_if false = 0

abbrev pub same : Phase → Phase → Bool
same accepting accepting = true
same reading reading = true
same blocked blocked = true
same (closed _) (closed _) = true
same left_open left_open = true
same deleted deleted = true
same _ _ = false

-- The number of sessions in a phase.
unfoldable pub count : Phase → List Phase → ℕ
count p [] = 0
count p (q ∷ ps) = one_if (same p q) + count p ps

-- The number of sessions that have written a reply.
abbrev pub count_closed : List Phase → ℕ
count_closed = count (closed [])

-- `NUM_OF_THREADS`. A handler that never ends keeps its thread.
abbrev pub num_of_threads : ℕ
num_of_threads = 4

abbrev pub HasThread : Loop → Type 0
HasThread l = count blocked l.sessions < num_of_threads

-- Whether the callbacks of a run overlap. The four threads take no lock, so that they may. A handler that
-- never ends touches nothing that is shared and does not count.
pub data Mode : Type 0 where
  serial overlapping : Mode

-- The steps of `Server::run`: while a thread is left, it runs one of the callbacks outstanding. One
-- that throws ends the program. A callback that overlaps no other goes from one state to the next. Of
-- one whose accesses to the status and the files are interleaved with those of other threads nothing
-- is assumed: it may have seen anything there, and it may leave anything behind. The callback of an
-- accept touches neither.
pub data Step (c : HandlerConfiguration) (mode : Mode) : Loop → Loop → Type 0 where
  accept :
      {l : Loop} (i : ℕ) (error : Bool)
      → HasThread l
      → phase_of i l.sessions ≡ some accepting
      → Step c mode l (record l { sessions = do_accept i error l.sessions })
  read :
      {l l' : Loop} (i : ℕ) (outside : Outside) (input : Bytes) (sent : Bool)
      → HasThread l
      → phase_of i l.sessions ≡ some reading
      → read_done c outside input sent i l ≡ done l'
      → Step c mode l l'
  race :
      {l l' : Loop} (i : ℕ) (outside : Outside) (input : Bytes) (sent : Bool) (seen left : Shared)
      → mode ≡ overlapping
      → HasThread l
      → phase_of i l.sessions ≡ some reading
      → read_done c outside input sent i (record l { shared = seen }) ≡ done l'
      → Step c mode l (record l' { shared = left })

-- The states behind any number of steps.
pub data Steps (c : HandlerConfiguration) (mode : Mode) (l : Loop) : Loop → Type 0 where
  start : Steps c mode l l
  further : {m n : Loop} → Steps c mode l m → Step c mode m n → Steps c mode l n
