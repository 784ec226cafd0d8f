-- ===== src/Server/EventLoop/Counting.antt =====
-- server/server.cc: what the counters of the status count: the replies that the sessions have written, by their status
-- codes and by the URIs that were asked for.
use caviar_hacker_grid.Base.{
  ℕ, zero, suc, ◌+◌, Bool, true, false, List, [], ◌∷◌, ◌++◌, some, ◌≡◌, refl, arith, subst, sym,
}
use caviar_hacker_grid.Base.Run.{Run, done}
use caviar_hacker_grid.Base.StdMap.Keys.{int_order, text_order}
use caviar_hacker_grid.Base.Text.{Bytes}
use caviar_hacker_grid.Handlers.Table.{HandlerConfiguration}
use caviar_hacker_grid.Http.Request.{parsed, parse}
use caviar_hacker_grid.Http.Response.Codes.{has_code}
use caviar_hacker_grid.Server.EventLoop.{
  Phase, accepting, reading, closed, deleted, phase_of, set_phase, one_if, do_accept, Loop, accept,
  read, Steps, start, further, Mode, race,
}
use caviar_hacker_grid.Server.Session.{Served, replied, do_read}

-- The connections on which a reply with a status code was written.
abbrev pub replies_with : ℕ → Phase → ℕ
replies_with code (closed text) = one_if (has_code code text)
replies_with code _ = 0

abbrev pub count_replies : ℕ → List Phase → ℕ
count_replies code [] = 0
count_replies code (p ∷ ps) = replies_with code p + count_replies code ps

-- The URI of a request, if it was replied to.
abbrev pub uri_of : Bytes → List Bytes
uri_of input = elim (parse input) [ parsed r ↦ r.request_uri ∷ [] | _ ↦ [] ]

abbrev pub if_replied : Run Served → List Bytes → List Bytes
if_replied (done (replied _ _)) uris = uris
if_replied _ uris = []

-- The URIs of the requests that were answered on the way to a state.
abbrev pub answered_uris :
    {c : HandlerConfiguration} {mode : Mode} {l l' : Loop} → Steps c mode l l' → List Bytes
answered_uris start = []
answered_uris (further s (accept _ _ _ _)) = answered_uris s
answered_uris {c} (further {m} s (race _ outside input _ seen _ _ _ _ _)) =
    if_replied (do_read outside c [] input seen) (uri_of input) ++ answered_uris s
answered_uris {c} (further {m} s (read _ outside input _ _ _ _)) =
    if_replied (do_read outside c [] input m.shared) (uri_of input) ++ answered_uris s

pub count_replies-set_phase :
    (code : ℕ) (i : ℕ) (p q : Phase) (ps : List Phase)
    → phase_of i ps ≡ some q
    → count_replies code (set_phase i p ps) + replies_with code q
      ≡ count_replies code ps + replies_with code p
count_replies-set_phase code i p q [] e = cc
count_replies-set_phase code zero p q (r ∷ ps) e =
    let f : q ≡ r = cc in
    subst
      (λ x.
        replies_with code p + count_replies code ps + replies_with code x
        ≡ replies_with code r + count_replies code ps + replies_with code p)
      (sym f) (omega arith)
count_replies-set_phase code (suc i) p q (r ∷ ps) e =
    omega (arith, count_replies-set_phase code i p q ps e)

count_replies-append :
    (code : ℕ) (ps : List Phase) → count_replies code (ps ++ accepting ∷ []) ≡ count_replies code ps
count_replies-append code [] = refl
count_replies-append code (p ∷ ps) = omega (arith, count_replies-append code ps)

pub count_replies-do_accept :
    (code : ℕ) (i : ℕ) (error : Bool) (ps : List Phase)
    → phase_of i ps ≡ some accepting
    → count_replies code (do_accept i error ps) ≡ count_replies code ps
unfolding do_accept
count_replies-do_accept code i true ps e =
    omega (arith, count_replies-set_phase code i deleted accepting ps e)
count_replies-do_accept code i false ps e = omega (
  arith,
  count_replies-append code (set_phase i reading ps),
  count_replies-set_phase code i reading accepting ps e,
)
