-- ===== src/Server/EventLoop/Tallied.antt =====
-- In every state of the event loop that callbacks reach which do not overlap, each counter of the status is
-- what it is to count.
use caviar_hacker_grid.Base.{
  ℕ, ◌+◌, ◌<◌, List, [], ◌∷◌, ◌++◌, some, ◌≡◌, ◌∙◌, refl, arith, subst, sym, ap,
}
use caviar_hacker_grid.Base.StdMap.Keys.{int_order, text_order}
use caviar_hacker_grid.Base.Text.{Bytes}
use caviar_hacker_grid.Handlers.Table.{HandlerConfiguration}
use caviar_hacker_grid.Http.Request.{parsed}
use caviar_hacker_grid.Http.Response.Codes.{has_code, has_code_unique}
use caviar_hacker_grid.Server.EventLoop.{
  Phase, reading, blocked, closed, left_open, phase_of, set_phase, one_if, Loop, accept, read,
  Steps, start, further, serial, race,
}
use caviar_hacker_grid.Server.EventLoop.Changes.{Ended, written, unanswered, never, read_done-Ended}
use caviar_hacker_grid.Server.Session.{Outside, Shared, replied, silent, do_read}
use caviar_hacker_grid.Server.Session.Serving as Serving
use caviar_hacker_grid.Server.Session.Serving.{
  Counted, Counted-IsConsistent, answered, do_read-Counted, state_of,
}
use caviar_hacker_grid.Server.Status.{log_incoming_request}
use caviar_hacker_grid.Server.Status.Counts.{IsConsistent}
use caviar_hacker_grid.Server.Status.Tally.{counter, counter-count_one, occurrences}
use caviar_hacker_grid.Server.EventLoop.Sessions.{serial_ne}
use caviar_hacker_grid.Server.EventLoop.Counting.{
  count_replies, uri_of, if_replied, answered_uris, count_replies-set_phase,
  count_replies-do_accept,
}

occurrences-append :
    (url : Bytes) (us vs : List Bytes)
    → occurrences url (us ++ vs) ≡ occurrences url us + occurrences url vs
unfolding occurrences
occurrences-append url [] vs = omega arith
occurrences-append url (u ∷ us) vs = omega (arith, occurrences-append url us vs)

abbrev pub by_code_of : Shared → ℕ → ℕ
by_code_of w k = counter k w.status.response_count_by_code

abbrev pub by_url_of : Shared → Bytes → ℕ
by_url_of w url = counter url w.status.request_count_by_url

-- What one session adds to the counters.
module _ (l : Loop) (v : IsConsistent l.shared.status) {input : Bytes} where
  Counted-by_code :
      (k : ℕ) {text : Bytes} {w : Shared}
      → k < 4294967296
      → Counted input l.shared (replied text w)
      → by_code_of w k ≡ by_code_of l.shared k + one_if (has_code k text)
  unfolding log_incoming_request
  Counted-by_code k small (answered request code text w _ e h) =
      let counted =
        counter-count_one k code l.shared.status.response_count_by_code v.codes_sorted in
      ap (λ s. counter k s.response_count_by_code) e
      ∙ counted
      ∙ ap (λ n. by_code_of l.shared k + n) (ground (arith, has_code_unique k code text small h))

  Counted-by_url :
      (url : Bytes) {text : Bytes} {w : Shared}
      → Counted input l.shared (replied text w)
      → by_url_of w url ≡ by_url_of l.shared url + occurrences url (uri_of input)
  unfolding log_incoming_request occurrences
  Counted-by_url url (answered request code text w p e _) =
      let uri = request.request_uri in
      let counted = counter-count_one url uri l.shared.status.request_count_by_url v.urls_sorted in
      let asked : uri_of input ≡ uri ∷ [] =
        ap (λ q. elim q [ parsed r ↦ r.request_uri ∷ [] | _ ↦ [] ]) p in
      ap (λ s. counter url s.request_count_by_url) e
      ∙ counted
      ∙ ap (λ us. by_url_of l.shared url + us) (omega (arith, ap (occurrences url) asked))

  Counted-silent : {w : Shared} → Counted input l.shared (silent w) → w ≡ l.shared
  Counted-silent Serving.unanswered = refl

module _ {c : HandlerConfiguration} (l : Loop) (v : IsConsistent l.shared.status)
    {outside : Outside} {input : Bytes} where
  Ended-IsConsistent :
      {p : Phase} {w : Shared} → Ended c l outside input p w → IsConsistent w.status
  Ended-IsConsistent (written text w d) =
      (Counted-IsConsistent l.shared (do_read-Counted outside c input l.shared (replied text w) d)
        v).0
  Ended-IsConsistent (unanswered w d) =
      (Counted-IsConsistent l.shared (do_read-Counted outside c input l.shared (silent w) d) v).0
  Ended-IsConsistent (never _) = v

  Ended-by_code :
      (k i : ℕ) {p : Phase} {w : Shared}
      → k < 4294967296
      → Ended c l outside input p w
      → phase_of i l.sessions ≡ some reading
      → by_code_of w k + count_replies k l.sessions
        ≡ by_code_of l.shared k + count_replies k (set_phase i p l.sessions)
  Ended-by_code k i small (written text w d) e = omega (
    arith,
    Counted-by_code l v k small (do_read-Counted outside c input l.shared (replied text w) d),
    count_replies-set_phase k i (closed text) reading l.sessions e,
  )
  Ended-by_code k i small (unanswered w d) e =
      let same = Counted-silent l v (do_read-Counted outside c input l.shared (silent w) d) in
      omega (
        arith,
        ap (λ u. by_code_of u k) same,
        count_replies-set_phase k i left_open reading l.sessions e,
      )
  Ended-by_code k i small (never _) e =
      omega (arith, count_replies-set_phase k i blocked reading l.sessions e)

  Ended-by_url :
      (url : Bytes) {p : Phase} {w : Shared}
      → Ended c l outside input p w
      → by_url_of w url
        ≡ by_url_of l.shared url
          + occurrences url (if_replied (do_read outside c [] input l.shared) (uri_of input))
  unfolding occurrences
  Ended-by_url url (written text w d) = omega (
    arith,
    Counted-by_url l v url (do_read-Counted outside c input l.shared (replied text w) d),
    ap (λ r. occurrences url (if_replied r (uri_of input))) d,
  )
  Ended-by_url url (unanswered w d) =
      let same = Counted-silent l v (do_read-Counted outside c input l.shared (silent w) d) in
      omega (
        arith,
        ap (λ u. by_url_of u url) same,
        ap (λ r. occurrences url (if_replied r (uri_of input))) d,
      )
  Ended-by_url url (never d) =
      omega (arith, ap (λ r. occurrences url (if_replied r (uri_of input))) d)

-- The counters in a state that the server has reached from another.
pub record Counts (c : HandlerConfiguration) (first l : Loop) (s : Steps c serial first l)
    : Type 0 where
  pub consistent : IsConsistent l.shared.status
  pub by_code :
      (code : ℕ)
      → code < 4294967296
      → by_code_of l.shared code + count_replies code first.sessions
        ≡ by_code_of first.shared code + count_replies code l.sessions
  pub by_url :
      (url : Bytes)
      → by_url_of l.shared url ≡ by_url_of first.shared url + occurrences url (answered_uris s)

pub Steps-Counts :
    {c : HandlerConfiguration} {first l : Loop} (s : Steps c serial first l)
    → IsConsistent first.shared.status
    → Counts c first l s
unfolding occurrences
Steps-Counts start v = record {
  consistent = v;
  by_code = λ code small. omega arith;
  by_url = λ url. omega arith;
}
Steps-Counts (further {m} s (accept i error t e)) v =
    let before = Steps-Counts s v in
    record {
      consistent = before.consistent;
      by_code = λ code small.
          omega
            (arith, before.by_code code small, count_replies-do_accept code i error m.sessions e);
      by_url = before.by_url;
    }
Steps-Counts {c} {first} (further {m} s (read i outside input sent t e d)) v =
    let before = Steps-Counts s v in
    let (p, w, x, f) = read_done-Ended c outside input sent i m d in
    let kept = before.consistent in
    let there = λ (k : ℕ). ap (λ n. count_replies k n.sessions) f in
    record {
      consistent = subst (λ n. IsConsistent n.shared.status) (sym f) (Ended-IsConsistent m kept x);
      by_code = λ k small. omega (
        arith,
        before.by_code k small,
        Ended-by_code m kept k i small x e,
        there k,
        ap (λ n. by_code_of n.shared k) f,
      );
      by_url = λ url. omega (
        arith,
        before.by_url url,
        Ended-by_url m kept url x,
        ap (λ n. by_url_of n.shared url) f,
        occurrences-append url (if_replied (do_read outside c [] input m.shared) (uri_of input))
            (answered_uris s),
      );
    }
Steps-Counts (further s (race _ _ _ _ _ _ o _ _ _)) v = absurd (serial_ne o)
