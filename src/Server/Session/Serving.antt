-- ===== src/Server/Session/Serving.antt =====
-- What a session does to the counters, and which requests it does not answer.
use caviar_hacker_grid.Base.{
  ℕ, true, List, [], ◌∷◌, ◌++◌, ◌≡◌, ◌≢◌, refl, arith, length, Bool-cases, inl, inr, Option-cases,
  ◌+◌, subst,
}
use caviar_hacker_grid.Base.Run.{Run, done, throws, undefined, diverges, or_undefined, ◌>>=◌}
use caviar_hacker_grid.Base.Text.{Bytes, starts_with, None, c_str}
use caviar_hacker_grid.Handlers.{Status, Handler}
use caviar_hacker_grid.Handlers.Cloud.{Host}
use caviar_hacker_grid.Handlers.Table.{HandlerConfiguration, find_longest_handler_key}
use caviar_hacker_grid.Http.Request.Lines.{is_cr, find-crlf}
use caviar_hacker_grid.Http.Request.Serial.{take_name}
use caviar_hacker_grid.Server.Status.Counts.{IsConsistent, log_incoming_request-IsConsistent}
use caviar_hacker_grid.Http.Request.{
  with_fields, process_request_line, Request, Parsed, parsed, rejected, thrown, parse, crlf,
  split_spaces,
}
use caviar_hacker_grid.Http.Response.Codes.{has_code, to_string-has_code}
use caviar_hacker_grid.Http.Decimal.{int_decimal}
use caviar_hacker_grid.Http.Response.{Response, new_response, to_string}
use caviar_hacker_grid.Server.Session.{
  Outside, Shared, Served, replied, silent, internal_error, is_bad_request, reply_with, handler_for,
  handle_request, do_read,
}
use caviar_hacker_grid.Server.Status.{log_incoming_request}

-- The counters behind a session: if it was answered, one more request under its URI and under the code
-- that its reply begins with; as they were if it was not.
abbrev pub Accounted : Bytes → Shared → Run Served → Type 0
Accounted uri w (done (replied text w')) =
    (code : ℕ) × (w'.status ≡ log_incoming_request uri code w.status) × (has_code code text ≡ true)
Accounted uri w (done (silent w')) = ⊥
Accounted uri w _ = Unit

internal_error-has_code : has_code 500 internal_error ≡ true
unfolding starts_with int_decimal
internal_error-has_code = refl

reply_with-Accounted :
    (uri : Bytes) (w : Shared) (answer : Host × (Status × Response))
    → Accounted uri w (reply_with uri w answer)
unfolding reply_with
reply_with-Accounted uri w (host, (status, response)) = elim (Bool-cases (is_bad_request status)) [
  | inl bad ↦ rw (reply_with, bad) (500, refl, internal_error-has_code)
  | inr good ↦ elim (Option-cases (to_string response)) [
    | inl e ↦ rw (reply_with, good, e) tt
    | inr (text, e) ↦ elim (Option-cases response.status_code) [
      | inl f ↦ rw (reply_with, good, e, f) tt
      | inr (code, f) ↦ rw (reply_with, good, e, f) (code, refl, to_string-has_code response e f)
    ]
  ]
]

bind-Accounted {ℓ} :
    {A : Type ℓ} (uri : Bytes) (w : Shared) (m : Run A) (k : A → Run Served)
    → ((a : A) → Accounted uri w (k a))
    → Accounted uri w (m >>= k)
bind-Accounted uri w (done a) k h = h a
bind-Accounted uri w throws k h = tt
bind-Accounted uri w undefined k h = tt
bind-Accounted uri w diverges k h = tt

with_fields_ne_three :
    (r : Request) (fields : List Bytes) → length fields ≢ 3 → with_fields r fields ≡ rejected
with_fields_ne_three r [] h = refl
with_fields_ne_three r (a ∷ []) h = refl
with_fields_ne_three r (a ∷ b ∷ []) h = refl
with_fields_ne_three r (a ∷ b ∷ d ∷ []) h = absurd (h refl)
with_fields_ne_three r (a ∷ b ∷ d ∷ e ∷ fields) h = refl

parse_bad_request_line :
    (first rest : Bytes)
    → None is_cr first
    → length (split_spaces [] (c_str first)) ≢ 3
    → parse (first ++ (crlf ++ rest)) ≡ rejected
unfolding parse
parse_bad_request_line first rest n three =
    rw (parse, process_request_line, find-crlf first rest n, take_name first (crlf ++ rest))
      (rw (with_fields_ne_three _ _ three))

module _ (outside : Outside) (c : HandlerConfiguration) where
  do_read-Accounted :
      (data_ input : Bytes) (w : Shared) {request : Request}
      → parse input ≡ parsed request
      → Accounted request.request_uri w (do_read outside c data_ input w)
  unfolding do_read
  do_read-Accounted data_ input w {request} e =
      let uri = request.request_uri in
      let answer = λ (handler : Handler).
        handle_request outside handler w request new_response >>= reply_with uri w in
      let found = or_undefined (handler_for c (find_longest_handler_key uri c.request_handlers)) in
      let accounted : Accounted uri w (found >>= answer) =
        bind-Accounted uri w found answer λ handler.
          bind-Accounted uri w (handle_request outside handler w request new_response)
            (reply_with uri w) (reply_with-Accounted uri w) in
      rw (do_read, e) accounted

  -- A request whose first line has not exactly three fields is answered by nothing at all: the session
  -- ends and the counters stay as they were.
  pub do_read_bad_request_line :
      (first rest : Bytes) (w : Shared)
      → None is_cr first
      → length (split_spaces [] (c_str first)) ≢ 3
      → do_read outside c [] (first ++ (crlf ++ rest)) w ≡ done (silent w)
  unfolding do_read
  do_read_bad_request_line first rest w n three =
      rw (do_read, parse_bad_request_line first rest n three)

abbrev pub state_of : Served → Shared
state_of (replied text w) = w
state_of (silent w) = w

abbrev pub answers : Served → ℕ
answers (replied text w) = 1
answers (silent w) = 0

data ParsedAs (p : Parsed Request) : Type 0 where
  as_request : (r : Request) → p ≡ parsed r → ParsedAs p
  as_rejected : p ≡ rejected → ParsedAs p
  as_thrown : p ≡ thrown → ParsedAs p

Parsed-cases : (p : Parsed Request) → ParsedAs p
Parsed-cases (parsed r) = as_request r refl
Parsed-cases rejected = as_rejected refl
Parsed-cases thrown = as_thrown refl

-- What a session that returns has done: it has answered a request and counted it, under its URI and
-- the code that its reply begins with, or it has changed nothing.
pub data Counted (input : Bytes) (w : Shared) : Served → Type 0 where
  answered :
      (request : Request) (code : ℕ) (text : Bytes) (w' : Shared)
      → parse input ≡ parsed request
      → w'.status ≡ log_incoming_request request.request_uri code w.status
      → has_code code text ≡ true
      → Counted input w (replied text w')
  unanswered : Counted input w (silent w)

Accounted-Counted :
    (input : Bytes) (request : Request) (w : Shared) (served : Served)
    → parse input ≡ parsed request
    → Accounted request.request_uri w (done served)
    → Counted input w served
Accounted-Counted input request w (replied text w') p (code, e, h) =
    answered request code text w' p e h
Accounted-Counted input request w (silent w') p a = elim a [ ]

pub do_read-Counted :
    (outside : Outside) (c : HandlerConfiguration) (input : Bytes) (w : Shared) (served : Served)
    → do_read outside c [] input w ≡ done served
    → Counted input w served
unfolding do_read
do_read-Counted outside c input w served e = elim (Parsed-cases (parse input)) [
  | as_request r p ↦
      Accounted-Counted input r w served p
        (subst (Accounted r.request_uri w) e (do_read-Accounted outside c [] input w p))
  | as_rejected p ↦
      let ends : do_read outside c [] input w ≡ done (silent w) = rw (do_read, p) in
      let same : silent w ≡ served = cc in subst (Counted input w) same unanswered
  | as_thrown p ↦ let ends : do_read outside c [] input w ≡ throws = rw (do_read, p) in cc
]

pub Counted-IsConsistent :
    {input : Bytes} (w : Shared) {served : Served}
    → Counted input w served
    → IsConsistent w.status
    → IsConsistent (state_of served).status
      × ((state_of served).status.requests ≡ w.status.requests + answers served)
unfolding log_incoming_request
Counted-IsConsistent w (answered request code text w' _ e _) v =
    rw e (log_incoming_request-IsConsistent request.request_uri code v, omega arith)
Counted-IsConsistent w unanswered v = (v, omega arith)

-- If a session returns, and the counters added up before, then the counters by URI and by status code
-- still add up to the number of requests, which has grown by the replies written.
pub do_read-IsConsistent :
    (outside : Outside) (c : HandlerConfiguration) (input : Bytes) (w : Shared) (served : Served)
    → do_read outside c [] input w ≡ done served
    → IsConsistent w.status
    → IsConsistent (state_of served).status
      × ((state_of served).status.requests ≡ w.status.requests + answers served)
do_read-IsConsistent outside c input w served e v =
    Counted-IsConsistent w (do_read-Counted outside c input w served e) v
