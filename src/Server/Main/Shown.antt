-- ===== src/Server/Main/Shown.antt =====
-- The status page that a client of a started server is sent.
use caviar_hacker_grid.Base.{ℕ, ◌<◌, ◌^◌, List, Option, some, ◌≡◌, ◌≢◌, ◌∙◌, subst, sym}
use caviar_hacker_grid.Base.Run.{done}
use caviar_hacker_grid.Base.StdMap.Keys.{int_order, text_order}
use caviar_hacker_grid.Base.Text.{Bytes, codes}
use caviar_hacker_grid.Handlers.{status_handler, server_status}
use caviar_hacker_grid.Handlers.Cloud.{Host}
use caviar_hacker_grid.Handlers.StatusPage.{status_to_html}
use caviar_hacker_grid.Handlers.StatusPage.Items.{
  Contains, total_line, url_item, code_item, status_to_html-total, status_to_html-url,
  status_to_html-code,
}
use caviar_hacker_grid.Handlers.Table.{find_longest_handler_key}
use caviar_hacker_grid.Http.Request.{Request, parsed, parse}
use caviar_hacker_grid.Server.EventLoop.{
  Loop, Steps, HasThread, count, count_closed, closed, deleted, phase_of, serial,
}
use caviar_hacker_grid.Server.EventLoop.Counting.{count_replies, answered_uris}
use caviar_hacker_grid.Server.Main.{running, main}
use caviar_hacker_grid.Server.Main.Answers.{main_replies}
use caviar_hacker_grid.Server.Main.Counts.{main_counts}
use caviar_hacker_grid.Server.Ports.{Sockets}
use caviar_hacker_grid.Server.Session.{Outside, handler_for}
use caviar_hacker_grid.Server.Session.Replies.{ok_reply, do_read_status}
use caviar_hacker_grid.Server.Status.Tally.{occurrences}
use caviar_hacker_grid.Server.WebServer.{WebServer}

-- In every state that a server which `main` has started reaches by callbacks that do not overlap
-- (those of handlers that never end aside), while no accept has failed and a thread is left: a
-- client can connect, and if the bytes that it sends first from there parse as a request for a
-- status handler, it is sent a page of type text/html with the status line of 200, and the page has
-- the number of connections closed after a reply so far, a line for each URI that was answered with
-- how often, and a line for each status code that was replied, an `int` given by its 32 bits, with
-- how often.
pub main_shows_counts :
    (sockets : Sockets) (file_of : Bytes → Option Bytes) (host : Host) (argv : List Bytes)
    (outside : Outside) (input : Bytes) (request : Request) {w : WebServer} {first l : Loop}
    → main sockets file_of host argv ≡ done (running w first)
    → (s : Steps w.handler_mapping serial first l) → HasThread l
    → count deleted l.sessions ≡ 0
    → parse input ≡ parsed request
    → handler_for w.handler_mapping
        (find_longest_handler_key request.request_uri w.handler_mapping.request_handlers)
      ≡ some (status_handler server_status)
    → (page : Bytes) × ((l' : Loop) × Steps w.handler_mapping serial l l'
        × (i : ℕ) × (phase_of i l'.sessions ≡ some (closed (ok_reply (codes "text/html") page))))
      × Contains page (total_line (count_closed l.sessions))
      × ((url : Bytes)
          → occurrences url (answered_uris s) ≢ 0
          → Contains page (url_item url (occurrences url (answered_uris s))))
      × ((code : ℕ)
          → code < 2 ^ 32
          → count_replies code l.sessions ≢ 0
          → Contains page (code_item code (count_replies code l.sessions)))
main_shows_counts sockets file_of host argv outside input request {w} {first} {l} e s t accepts p
      h =
    let status = l.shared.status in
    let page = status_to_html status in
    let (total, by_code, by_url) = main_counts sockets file_of host argv e s in
    let (l', u, i, at, _, _, _) =
      main_replies sockets file_of host argv e s t accepts outside input _ _
        (do_read_status outside w.handler_mapping input l.shared request p h) in
    (
      page,
      (l', u, i, at),
      subst (λ n. Contains page (total_line n)) total (status_to_html-total status),
      λ url ne.
          subst (λ n. Contains page (url_item url n)) (by_url url)
            (status_to_html-url status url (λ z. ne (sym (by_url url) ∙ z))),
      λ code small ne.
          subst (λ n. Contains page (code_item code n)) (by_code code small)
            (status_to_html-code status code (λ z. ne (sym (by_code code small) ∙ z))),
    )
