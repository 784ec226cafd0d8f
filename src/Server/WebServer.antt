-- ===== src/Server/WebServer.antt =====
-- server/webserver.h and server/webserver.cc: the set-up from the configuration, and main.cc
-- up to `run_server`.
pub mod Setup
pub mod Table
pub mod Bounds
use caviar_hacker_grid.Base.{
  ℕ, suc, Bool, true, false, not, List, [], ◌∷◌, ◌++◌, Option, none, some, if◌then◌else◌, ◌==◌,
}
use caviar_hacker_grid.Base.Number.{ℤ, pos, negsuc, atoi, exceeds}
use caviar_hacker_grid.Base.Run.{Run, done, undefined, throws, or_undefined, ◌>>=◌}
use caviar_hacker_grid.Base.StdMap.{insert, is_new, lookup, update}
use caviar_hacker_grid.Base.StdMap.Keys.{text_order}
use caviar_hacker_grid.Base.Text.{Bytes, codes, equal}
use caviar_hacker_grid.Config.{Config, node, nil, children, tokens, find_tokens, find_all}
use caviar_hacker_grid.Config.Parser as Parser
use caviar_hacker_grid.Handlers.{
  Status, invalid_config, Handler, status_handler, StatusPointer, server_status, create_by_name,
}
use caviar_hacker_grid.Handlers.Init.{init, only_second}
use caviar_hacker_grid.Handlers.Table.{HandlerConfiguration, HandlerMap}
use caviar_hacker_grid.Http.Decimal.{to_decimal}
use caviar_hacker_grid.Server.Status as ServerStatus
use caviar_hacker_grid.Server.Ports.{Sockets, port_valid}
use caviar_hacker_grid.Server.Status.{new_status, add_handler, set_default_handler}

pub record WebServer : Type 0 where
  pub config : Config
  pub port : ℤ
  pub status : ServerStatus.Status
  pub handler_mapping : HandlerConfiguration

-- The constructor.
abbrev pub new_server : Config → WebServer
new_server config = record {
  config = config;
  port = pos 0;
  status = new_status;
  handler_mapping = record { request_handlers = []; default_handler = none };
}

-- `dynamic_cast<StatusHandler*>(handler)->InitStatus(&status_)`.
abbrev pub init_status : Handler → Handler
init_status (status_handler _) = status_handler server_status
init_status h = h

abbrev pub is_invalid : Status → Bool
is_invalid invalid_config = true
is_invalid _ = false

-- The entry of an initialised handler: the result of `AddHandler`, and the server behind it.
unfoldable pub register : WebServer → Bytes → Bytes → Status × Handler → Bool × WebServer
unfolding add_handler update lookup
register w path handler_name (status, handler) =
    let m = w.handler_mapping.request_handlers in
    let inserted = record w {
      handler_mapping = record (w.handler_mapping) { request_handlers = insert path handler m };
    } in
    if is_invalid status
    then (false, w)
    else if is_new path m
    then (true, record inserted { status = add_handler path handler_name w.status })
    else (false, inserted)

-- `AddHandler`.
unfoldable pub add_web_handler : WebServer → Bytes → Bytes → Config → Run (Bool × WebServer)
unfolding create_by_name register init equal
add_web_handler w path handler_name config = elim (create_by_name handler_name) [
  | none ↦ done (false, w)
  | some handler ↦
      let ready =
        if equal handler_name (codes "StatusHandler") then init_status handler else handler in
      init ready path config >>= λ result. done (register w path handler_name result)
]

-- The loop over the `path` statements: `false` for one that has not three tokens. What `AddHandler`
-- returns is not looked at.
unfoldable pub add_paths : WebServer → List Config → Run (Bool × WebServer)
unfolding add_web_handler
add_paths w [] = done (true, w)
add_paths w (node (path ∷ uri ∷ name ∷ []) block ∷ statements) =
    add_web_handler w uri name (node (path ∷ uri ∷ name ∷ []) block) >>= λ result.
    add_paths result.1 statements
add_paths w (statement ∷ statements) = done (false, w)

-- The part of `Init` behind the `default` statement. `port_valid` asks the system
-- whether the port can be bound.
unfoldable pub set_default : Sockets → WebServer → Option Bytes → Run (Bool × WebServer)
unfolding create_by_name set_default_handler port_valid
set_default sockets w none = done (false, w)
set_default sockets w (some name) = elim (create_by_name name) [
  | none ↦ done (false, w)
  | some handler ↦ done (
    port_valid sockets w.port == 0,
    record w {
      handler_mapping = record (w.handler_mapping) { default_handler = some handler };
      status = set_default_handler name w.status;
    },
  )
]

-- The part of `Init` behind the `port` statement.
unfoldable pub add_statements : Sockets → WebServer → Run (Bool × WebServer)
unfolding add_paths set_default find_all find_tokens
add_statements sockets w = do
  statements ← or_undefined (find_all (codes "path") (children w.config))
  added ← add_paths w statements
  let found = or_undefined (find_tokens (codes "default") (children w.config))
  let defaulted = found >>= λ tokens. set_default sockets added.1 (only_second tokens)
  if added.0 then defaulted else done added

-- The part of `Init` that reads the port, with the second token of its statement. Behind it stands
-- `RequestHandlers = new HandlerMap`.
unfoldable pub set_port : Sockets → WebServer → Option Bytes → Run (Bool × WebServer)
unfolding add_statements atoi
set_port sockets w none = done (false, w)
set_port sockets w (some text) = or_undefined (atoi text) >>= λ port.
    let set = record w { port = port } in
    let emptied = record set {
      handler_mapping = record (set.handler_mapping) { request_handlers = [] };
    } in
    if exceeds port 65535 then done (false, set) else add_statements sockets emptied

-- `Init`.
unfoldable pub init_server : Sockets → WebServer → Run (Bool × WebServer)
unfolding set_port find_tokens
init_server sockets w = do
  port_tokens ← or_undefined (find_tokens (codes "port") (children w.config))
  set_port sockets w (only_second port_tokens)

-- `main` up to `run_server`: the exit code 1, or the server that is about to run.
unfoldable pub start : Sockets → Option Bytes → Run (Option WebServer)
unfolding init_server Parser.parse_file
start sockets file = elim (Parser.parse_file file (node [] nil)) [
  | Parser.undefined ↦ undefined
  | Parser.out_of_rounds ↦ undefined
  | Parser.returned ok config ↦
      if ok
      then (init_server sockets (new_server config) >>= λ result.
          done (if result.0 then some result.1 else none))
      else done none
]

-- `std::to_string` of an `int`.
abbrev pub int_to_string : ℤ → Bytes
int_to_string (pos n) = to_decimal n
int_to_string (negsuc n) = b'-' ∷ to_decimal (suc n)

-- The loop of `ToString`.
unfoldable pub registered : HandlerMap → Bytes
registered [] = []
registered ((path, handler) ∷ m) =
    codes "Handler registered: " ++ (path ++ (codes "\n" ++ registered m))

-- `ToString`.
unfoldable pub to_string : WebServer → Bytes
unfolding registered to_decimal
to_string w =
    codes "port: "
    ++ (int_to_string w.port ++ (codes " \n" ++ registered w.handler_mapping.request_handlers))
