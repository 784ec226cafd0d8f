-- ===== src/Server/Session/Replying.antt =====
-- Sessions whose handlers neither call other programs nor wait: they reply to every request.
use caviar_hacker_grid.Base.{ℕ, [], ◌++◌, some, ◌≡◌, inl, inr, refl, ap, ◌∙◌, Bool-cases, arith}
use caviar_hacker_grid.Base.Run.{Run, done, ◌>>=◌}
use caviar_hacker_grid.Base.StdMap.{IsSorted}
use caviar_hacker_grid.Base.StdMap.Keys.{text_order}
use caviar_hacker_grid.Base.Text.{Bytes}
use caviar_hacker_grid.Handlers.{Status, Handler}
use caviar_hacker_grid.Handlers.Cloud.{Host}
use caviar_hacker_grid.Handlers.Table.{HandlerConfiguration, find_longest_handler_key}
use caviar_hacker_grid.Http.Request.{Request, parsed, parse}
use caviar_hacker_grid.Http.Response.{
  header_lines, status_line, line_break, Response, new_response, to_string,
}
use caviar_hacker_grid.Server.Session.{
  Outside, Shared, replied, do_read, handle_request, handler_for, reply_with, is_bad_request,
  internal_error,
}
use caviar_hacker_grid.Server.Status.{log_incoming_request}
use caviar_hacker_grid.Server.Session.Plain.{
  IsPlain, ArePlain, registered-IsPlain, Answers, of_host, handle_request-Answers,
}
use caviar_hacker_grid.Server.Session.Dispatch.{handler_for_lem}

to_string-code :
    (r : Response) (code : ℕ)
    → r.status_code ≡ some code
    → (text : Bytes) × (to_string r ≡ some text)
unfolding to_string
to_string-code r code e = (
  status_line code r.reason_phrase ++ (header_lines r.http_headers ++ (line_break ++ r.body)),
  rw (to_string, e) refl,
)

reply_with-replied :
    (uri : Bytes) (w : Shared) (host : Host) (status : Status) (response : Response) (code : ℕ)
    → response.status_code ≡ some code
    → (text : Bytes) × (w' : Shared) × (reply_with uri w (host, (status, response))
        ≡ done (replied text w'))
unfolding reply_with
reply_with-replied uri w host status response code e =
    let (text, f) = to_string-code response code e in
    elim (Bool-cases (is_bad_request status)) [
      | inl bad ↦ (
        internal_error,
        record { status = log_incoming_request uri 500 w.status; host = host },
        rw (reply_with, bad) refl,
      )
      | inr good ↦ (
        text,
        record { status = log_incoming_request uri code w.status; host = host },
        ground (arith, good, f, e),
      )
    ]

reply_with-Answers :
    (uri : Bytes) (w : Shared) (m : Run (Host × (Status × Response)))
    → Answers m of_host
    → (text : Bytes) × (w' : Shared) × ((m >>= reply_with uri w) ≡ done (replied text w'))
reply_with-Answers uri w m a =
    let (host, (status, response)) = a.value in
    let (text, w', e) = reply_with-replied uri w host status response a.code a.has_code in
    (text, w', ap (λ n. n >>= reply_with uri w) a.returns ∙ e)

handler_for-IsPlain :
    (c : HandlerConfiguration) (uri : Bytes) (d : Handler)
    → IsSorted c.request_handlers
    → ArePlain c.request_handlers
    → c.default_handler ≡ some d
    → IsPlain d
    → (h : Handler) × (handler_for c (find_longest_handler_key uri c.request_handlers) ≡ some h)
      × IsPlain h
handler_for-IsPlain c uri d s a e p = elim (handler_for_lem c uri d s e) [
  | inl (_, f) ↦ (d, f, p)
  | inr (i, f) ↦ (i.handler, f, registered-IsPlain i.registered a)
]

-- If every registered handler and the default handler are echo, not-found, static, Markdown or status
-- handlers, then every request that parses is replied to.
pub do_read-ArePlain :
    (outside : Outside) (c : HandlerConfiguration) (d : Handler) (input : Bytes) (w : Shared)
    (request : Request)
    → IsSorted c.request_handlers
    → ArePlain c.request_handlers
    → c.default_handler ≡ some d
    → IsPlain d
    → parse input ≡ parsed request
    → (text : Bytes) × (w' : Shared) × (do_read outside c [] input w ≡ done (replied text w'))
unfolding do_read
do_read-ArePlain outside c d input w request s a e p q =
    let uri = request.request_uri in
    let (h, found, plain) = handler_for-IsPlain c uri d s a e p in
    let (text, w', f) =
      reply_with-Answers uri w (handle_request outside h w request new_response)
        (handle_request-Answers outside h w request plain) in
    (text, w', rw (do_read, q, found) f)
