-- ===== src/Server/Tests.antt =====
-- The server's theorems at a concrete configuration and concrete requests.
mod Lifetime
mod Sites
mod Counting
use caviar_hacker_grid.Base.{
  ltb, ◌+◌, true, false, [], ◌∷◌, ◌++◌, none, some, Bool, ◌≡◌, ◌⊎◌, ◌≢◌, if◌then◌else◌, refl,
  length, arith,
}
use caviar_hacker_grid.Base.Number.{ℤ, pos, exceeds}
use caviar_hacker_grid.Base.Run.{Run, done}
use caviar_hacker_grid.Base.StdMap.{lookup}
use caviar_hacker_grid.Base.StdMap.Keys.{text_order}
use caviar_hacker_grid.Base.Text.{Bytes, codes, c_str, equal}
use caviar_hacker_grid.Config.{Config, node, nil, cons}
use caviar_hacker_grid.Handlers.{echo_handler, not_found_handler, static_handler}
use caviar_hacker_grid.Handlers.Table.{HandlerConfiguration, find_longest_handler_key}
use caviar_hacker_grid.Handlers.Table.Longest.{IsPrefixIn}
use caviar_hacker_grid.Http.Request.{crlf, split_spaces, Request, new_request, parsed, parse}
use caviar_hacker_grid.Server.Session.{
  Outside, Shared, Served, silent, handler_for, do_read, replied,
}
use caviar_hacker_grid.Server.Session.Dispatch.{handler_for_lem}
use caviar_hacker_grid.Handlers.Files.Answers.{static_type}
use caviar_hacker_grid.Server.Runs.{no_session, session, init_server-Reached}
use caviar_hacker_grid.Server.Session.Replies.{ok_reply, do_read_static_file}
use caviar_hacker_grid.Server.Session.Serving.{
  do_read_bad_request_line, do_read-IsConsistent, state_of, answers,
}
use caviar_hacker_grid.Server.Status.{new_status, log_incoming_request}
use caviar_hacker_grid.Server.Status.Counts.{
  IsConsistent, new_status-IsConsistent, log_incoming_request-IsConsistent,
}
use caviar_hacker_grid.Server.Ports.{Sockets}
use caviar_hacker_grid.Server.WebServer.{WebServer, new_server, add_web_handler, init_server}
use caviar_hacker_grid.Server.WebServer.Table.{HandlersOf, init_server-table}
use caviar_hacker_grid.Server.WebServer.Setup.{
  Agrees, IsSetUp, keys, add_web_handler-Agrees, init_server-IsSetUp,
}

abbrev pub config : Config
config = node [] (
    cons (node (codes "port" ∷ codes "8080" ∷ []) nil) (
      cons (node (codes "path" ∷ codes "/e" ∷ codes "EchoHandler" ∷ []) nil)
        (cons (node (codes "default" ∷ codes "NotFoundHandler" ∷ []) nil) nil)))

-- The ports below 1024 are refused.
abbrev pub sockets : Sockets
sockets = record {
  open_error = 0;
  bind_error = λ port. if ltb port 1024 then 13 else 0;
  listen_error = λ port. 0;
}

abbrev server_of : Run (Bool × WebServer) → WebServer
server_of (done (_, w)) = w
server_of _ = new_server config

abbrev pub ready : WebServer
unfolding init_server
ready = server_of (init_server sockets (new_server config))

pub init_ready : init_server sockets (new_server config) ≡ done (true, ready)
unfolding init_server
init_ready = refl

init_server-IsSetUp_example : (port : ℤ) × (exceeds port 65535 ≡ false) × IsSetUp sockets port ready
init_server-IsSetUp_example = init_server-IsSetUp sockets (new_server config) init_ready refl

init_server-table_example :
    HandlersOf config (codes "/e") (lookup (codes "/e") ready.handler_mapping.request_handlers)
init_server-table_example = init_server-table sockets (codes "/e") (new_server config) init_ready

abbrev with_echo : WebServer
unfolding add_web_handler
with_echo =
    server_of (add_web_handler (new_server config) (codes "/e") (codes "EchoHandler") config)

echo_added :
    add_web_handler (new_server config) (codes "/e") (codes "EchoHandler") config
    ≡ done (true, with_echo)
unfolding add_web_handler
echo_added = refl

abbrev pub table : HandlerConfiguration
table = record {
  request_handlers = (codes "/e", echo_handler) ∷ [];
  default_handler = some not_found_handler;
}

handler_for_lem_example :
    ((find_longest_handler_key (codes "/e/x") table.request_handlers ≡ [])
      × (handler_for table (find_longest_handler_key (codes "/e/x") table.request_handlers)
          ≡ some not_found_handler))
    ⊎ ((f : IsPrefixIn
          (codes "/e/x")
          table.request_handlers
          (find_longest_handler_key (codes "/e/x") table.request_handlers))
        × (handler_for table (find_longest_handler_key (codes "/e/x") table.request_handlers)
            ≡ some f.handler))
handler_for_lem_example = handler_for_lem table (codes "/e/x") not_found_handler (tt, tt) refl

-- No network, no Markdown, and commands that succeed and do nothing.
abbrev pub outside : Outside
outside = record {
  render = λ text. text;
  system = λ command files. (0, files);
  network = λ host port text. none;
}

abbrev pub shared : Shared
shared = record { status = new_status; host = record { files = λ path. none; downloads = 0 } }

abbrev pub input : Bytes
input = codes "GET /e HTTP/1.1\r\n\r\n"

abbrev served_of : Run Served → Served
served_of (done s) = s
served_of _ = silent shared

abbrev pub served : Served
unfolding do_read
served = served_of (do_read outside table [] input shared)

pub do_read-input : do_read outside table [] input shared ≡ done served
unfolding do_read
do_read-input = refl

do_read-IsConsistent_example :
    IsConsistent (state_of served).status
    × ((state_of served).status.requests ≡ shared.status.requests + answers served)
do_read-IsConsistent_example =
    do_read-IsConsistent outside table input shared served do_read-input new_status-IsConsistent

one_answer : answers served ≡ 1
unfolding served
one_answer = refl

two_fields : length (split_spaces [] (c_str (codes "GET /e"))) ≢ 3
unfolding split_spaces c_str
two_fields = λ e. ground arith

do_read_bad_request_line_example :
    do_read outside table [] (codes "GET /e" ++ (crlf ++ crlf)) shared ≡ done (silent shared)
do_read_bad_request_line_example =
    do_read_bad_request_line outside table (codes "GET /e") crlf shared
      (refl, (refl, (refl, (refl, (refl, (refl, tt)))))) two_fields

-- One file, `/w/a`, and a static handler for `/s`.
abbrev pub with_file : Shared
with_file = record {
  status = new_status;
  host = record {
    files = λ path. if equal path (codes "/w/a") then some (codes "hi") else none;
    downloads = 0;
  };
}

abbrev pub static_input : Bytes
static_input = codes "GET /s/a HTTP/1.1\r\n\r\n"

abbrev pub static_request : Request
static_request = record new_request {
  method = codes "GET";
  request_uri = codes "/s/a";
  version = codes "HTTP/1.1";
  raw_request = static_input;
  request_line = codes "GET /s/a HTTP/1.1";
}

pub static_parsed : parse static_input ≡ parsed static_request
unfolding parse
static_parsed = refl

pub static_file : with_file.host.files (c_str (codes "/w" ++ codes "/a")) ≡ some (codes "hi")
unfolding c_str equal
static_file = refl

-- The echo request against the server that `Init` has set up.
abbrev pub ready_shared : Shared
ready_shared = record { status = ready.status; host = shared.host }

abbrev pub echoed : Served
unfolding do_read
echoed = served_of (do_read outside ready.handler_mapping [] input ready_shared)

pub echo_served : do_read outside ready.handler_mapping [] input ready_shared ≡ done echoed
unfolding do_read ready init_server
echo_served = refl
