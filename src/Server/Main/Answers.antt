-- ===== src/Server/Main/Answers.antt =====
-- A request to a server that the program has started is answered.
use caviar_hacker_grid.Base.{suc, List, Option, some, ◌≡◌, refl, subst, ◌++◌, [], ℕ, ◌≢◌, ap, ◌∙◌}
use caviar_hacker_grid.Base.Run.{done}
use caviar_hacker_grid.Base.Text.{Bytes, c_str}
use caviar_hacker_grid.Base.StdMap.{lookup}
use caviar_hacker_grid.Base.StdMap.Keys.{text_order}
use caviar_hacker_grid.Handlers.{Handler, static_handler}
use caviar_hacker_grid.Handlers.Cloud.{Host}
use caviar_hacker_grid.Http.Request.{Request, parsed, parse}
use caviar_hacker_grid.Server.EventLoop.{
  Loop, Steps, HasThread, count, closed, deleted, count_closed, phase_of, Mode,
}
use caviar_hacker_grid.Server.EventLoop.Answering.{Steps_answer}
use caviar_hacker_grid.Server.Main.{running, main}
use caviar_hacker_grid.Server.Main.Life.{main-running}
use caviar_hacker_grid.Server.Ports.{Sockets}
use caviar_hacker_grid.Handlers.Table.{find_longest_handler_key}
use caviar_hacker_grid.Server.Session.{Outside, Shared, do_read, replied}
use caviar_hacker_grid.Server.Session.Plain.{IsPlain, ArePlain}
use caviar_hacker_grid.Server.Session.Replies.{ok_reply, do_read_static_file}
use caviar_hacker_grid.Handlers.Files.Answers.{static_type}
use caviar_hacker_grid.Server.Session.Serving.{Counted, answered, do_read-Counted}
use caviar_hacker_grid.Server.Status.{log_incoming_request}
use caviar_hacker_grid.Server.Session.Replying.{do_read-ArePlain}
use caviar_hacker_grid.Server.WebServer.{WebServer, new_server}
use caviar_hacker_grid.Server.WebServer.Setup.{init_server-IsSetUp}

Counted-requests :
    {input text : Bytes} {w w' : Shared}
    → Counted input w (replied text w')
    → w'.status.requests ≡ suc w.status.requests
unfolding log_incoming_request
Counted-requests (answered request code text w' _ e _) = ap (λ s. s.requests) e

module _ (sockets : Sockets) (file_of : Bytes → Option Bytes) (host : Host) (argv : List Bytes)
    {mode : Mode} {w : WebServer} {first l : Loop}
    (e : main sockets file_of host argv ≡ done (running w first))
    (s : Steps w.handler_mapping mode first l) (t : HasThread l)
    (accepts : count deleted l.sessions ≡ 0) where
  pub main_replies :
      (outside : Outside) (input text : Bytes) (w' : Shared)
      → do_read outside w.handler_mapping [] input l.shared ≡ done (replied text w')
      → (l' : Loop) × Steps w.handler_mapping mode l l'
        × (i : ℕ) × (phase_of i l'.sessions ≡ some (closed text))
        × (l'.shared ≡ w')
        × (count_closed l'.sessions ≡ suc (count_closed l.sessions))
        × (l'.shared.status.requests ≡ suc l.shared.status.requests)
  main_replies outside input text w' r =
      let (config, f, at_start) = main-running sockets file_of host argv e in
      let (l', u, same, (i, at), grown, _) =
        Steps_answer outside input text w'
          (subst (λ m. Steps w.handler_mapping mode m l) at_start s) t accepts r in
      let counted =
        Counted-requests (do_read-Counted outside w.handler_mapping input l.shared _ r) in
      (l', u, i, at, same, grown, ap (λ v. v.status.requests) same ∙ counted)

  -- In every state of a server that `main` has started, whether callbacks overlapped on the way there or
  -- not, with echo, not-found, static, Markdown and
  -- status handlers alone, while no accept has failed and a thread is left: a client can connect, and if
  -- the bytes that it sends first from there, with no other callback meanwhile, parse as a request, then a reply is written, the connection
  -- is closed and the request is counted.
  pub main_answers :
      (outside : Outside) (input : Bytes) (request : Request) (d : Handler)
      → ArePlain w.handler_mapping.request_handlers
      → w.handler_mapping.default_handler ≡ some d
      → IsPlain d
      → parse input ≡ parsed request
      → (l' : Loop) × Steps w.handler_mapping mode l l'
        × (count_closed l'.sessions ≡ suc (count_closed l.sessions))
        × (l'.shared.status.requests ≡ suc l.shared.status.requests)
  main_answers outside input request d plain g p q =
      let (config, f, _) = main-running sockets file_of host argv e in
      let (_, _, ((_, _, sorted, _), _, _, _, _)) =
        init_server-IsSetUp sockets (new_server config) f refl in
      let (text, w', r) =
        do_read-ArePlain outside w.handler_mapping d input l.shared request sorted plain g p q in
      let (l', u, _, _, _, grown, counted) = main_replies outside input text w' r in
      (l', u, grown, counted)

  -- In every state of a server that `main` has started, whether callbacks overlapped on the way there or
  -- not, whatever its handlers, while no accept has
  -- failed and a thread is left: a client can connect, and if the bytes that it sends first from there,
  -- with no other callback meanwhile, parse as a request, the longest prefix of its URI in the table belongs to a static handler, and the
  -- URI goes on behind the prefix with the name of a file under the handler's root path, then the client
  -- is sent the status line of 200, the content type of the file's extension and the bytes of the file,
  -- the connection is closed, and the counters have one more request for the URI and for the code 200.
  pub main_serves_file :
      (outside : Outside) (input : Bytes) (request : Request)
      (uri_prefix root_path rest text : Bytes)
      → parse input ≡ parsed request
      → request.request_uri ≡ uri_prefix ++ rest
      → find_longest_handler_key request.request_uri w.handler_mapping.request_handlers ≡ uri_prefix
      → uri_prefix ≢ []
      → lookup uri_prefix w.handler_mapping.request_handlers
        ≡ some (static_handler uri_prefix root_path)
      → l.shared.host.files (c_str (root_path ++ rest)) ≡ some text
      → (l' : Loop) × Steps w.handler_mapping mode l l'
        × ((i : ℕ) × (phase_of i l'.sessions
              ≡ some (closed (ok_reply (static_type (root_path ++ rest)) text))))
        × (l'.shared.status ≡ log_incoming_request request.request_uri 200 l.shared.status)
        × (count_closed l'.sessions ≡ suc (count_closed l.sessions))
  main_serves_file outside input request uri_prefix root_path rest text p u k ne found f =
      let r =
        do_read_static_file outside w.handler_mapping input l.shared request uri_prefix root_path
          rest text p u k ne found f in
      let (l', steps, i, at, same, grown, _) = main_replies outside input _ _ r in
      (l', steps, (i, at), ap (λ v. v.status) same, grown)
