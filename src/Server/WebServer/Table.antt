-- ===== src/Server/WebServer/Table.antt =====
-- The handler table that `Init` of server/webserver.cc makes of a configuration.
use caviar_hacker_grid.Base.{
  ◌==◌, Bool, true, false, List, [], ◌∷◌, Option, none, some, ◌≡◌, ◌≢◌, ◌∙◌, refl, ap, sym, arith,
  Bool-cases, inl, inr, Option-cases, if◌then◌else◌, subst,
}
use caviar_hacker_grid.Base.Number.{exceeds, atoi}
use caviar_hacker_grid.Base.Run.{Run, done, or_undefined, ◌>>=◌, >>=-eq-done}
use caviar_hacker_grid.Base.StdMap.{is_new, keep, lookup, insert, IsSorted}
use caviar_hacker_grid.Base.StdMap.Keys.{text_order}
use caviar_hacker_grid.Base.StdMap.Laws.{update-IsSorted, lookup-update_self, lookup-update_ne}
use caviar_hacker_grid.Base.Text.{Bytes, codes, equal, equal_iff}
use caviar_hacker_grid.Config.{Config, node, children, find_all, find_tokens}
use caviar_hacker_grid.Handlers.{Status, Handler, create_by_name}
use caviar_hacker_grid.Handlers.Table.{HandlerMap}
use caviar_hacker_grid.Handlers.Init.{init, only_second}
use caviar_hacker_grid.Server.Ports.{Sockets, port_valid}
use caviar_hacker_grid.Server.Status.{set_default_handler}
use caviar_hacker_grid.Server.WebServer.Setup.{or_undefined-done}
use caviar_hacker_grid.Server.WebServer.{
  WebServer, is_invalid, register, init_status, add_web_handler, add_paths, set_default,
  add_statements, init_server, set_port,
}

-- The handler that `Init` of a handler leaves, unless it refuses.
abbrev pub accepted : Run (Status × Handler) → Option Handler
accepted (done (status, handler)) = if is_invalid status then none else some handler
accepted _ = none

abbrev pub ready : Bytes → Handler → Handler
ready name handler = if equal name (codes "StatusHandler") then init_status handler else handler

-- The handler that a `path` statement names, if there is one.
abbrev pub handler_of : Bytes → Bytes → Config → Option Handler
handler_of uri name config = elim (create_by_name name) [
  | none ↦ none
  | some handler ↦ accepted (init (ready name handler) uri config)
]

-- The handler of the first statement for a path that names one.
abbrev pub first_handler : Bytes → List Config → Option Handler
first_handler path [] = none
first_handler path (node (key ∷ uri ∷ name ∷ []) block ∷ statements) =
    elim (handler_of uri name (node (key ∷ uri ∷ name ∷ []) block)) [
      | none ↦ first_handler path statements
      | some handler ↦ if equal uri path then some handler else first_handler path statements
    ]
first_handler path (statement ∷ statements) = none

abbrev or_else : Option Handler → Option Handler → Option Handler
or_else none h = h
or_else (some g) h = some g

-- The entry for a path behind an insertion.
lookup-insert :
    (path uri : Bytes) (h : Handler) (m : HandlerMap)
    → IsSorted m
    → lookup path (insert uri h m)
      ≡ or_else (lookup path m) (if equal uri path then some h else none)
lookup-insert path uri h m s = elim (Bool-cases (equal uri path)) [
  | inl e ↦
      let same : uri ≡ path = (equal_iff uri path).0 e in
      subst
        (λ u.
          lookup path (insert u h m)
          ≡ or_else (lookup path m) (if equal uri path then some h else none))
        (sym same)
        (lookup-update_self (keep h) path m
          ∙ elim (Option-cases (lookup path m)) [ inl n ↦ rw (n, e) refl | inr (g, n) ↦ rw n refl ])
  | inr e ↦
      let ne : path ≢ uri = λ q. ground (arith, e, equal_iff uri path, q) in
      lookup-update_ne (keep h) path uri m ne s
      ∙ elim (Option-cases (lookup path m)) [ inl n ↦ rw (n, e) refl | inr (g, n) ↦ rw n refl ]
]

abbrev table : WebServer → HandlerMap
table w = w.handler_mapping.request_handlers

abbrev one : Bytes → Bytes → Option Handler → Option Handler
one path uri none = none
one path uri (some h) = if equal uri path then some h else none

unchanged : (h : Option Handler) → h ≡ or_else h none
unchanged none = refl
unchanged (some h) = refl

register-table :
    (w : WebServer) (path uri name : Bytes) (result : Status × Handler)
    → IsSorted (table w)
    → (lookup path (table (register w uri name result).1)
        ≡ or_else (lookup path (table w)) (one path uri (accepted (done result))))
      × IsSorted (table (register w uri name result).1)
unfolding register
register-table w path uri name (status, h) s =
    let m = table w in
    let sorted = update-IsSorted (keep h) uri m s in
    let found = lookup-insert path uri h m s in
    elim (Bool-cases (is_invalid status)) [
      | inl bad ↦ rw (register, bad) (unchanged (lookup path m), s)
      | inr good ↦ elim (Bool-cases (is_new uri m)) [
        | inl e ↦ rw (register, good, e) (found, sorted)
        | inr e ↦ rw (register, good, e) (found, sorted)
      ]
    ]

or_else_assoc : (f g h : Option Handler) → or_else (or_else f g) h ≡ or_else f (or_else g h)
or_else_assoc none g h = refl
or_else_assoc (some f) g h = refl

one-or_else :
    (path uri : Bytes) (made rest : Option Handler)
    → or_else (one path uri made) rest
      ≡ elim made [ none ↦ rest | some handler ↦ if equal uri path then some handler else rest ]
one-or_else path uri none rest = refl
one-or_else path uri (some h) rest = elim (Bool-cases (equal uri path)) [
  | inl e ↦ rw e refl
  | inr e ↦ rw e refl
]

add_web_handler-table :
    (w : WebServer) (path uri name : Bytes) (config : Config) {b : Bool} {w' : WebServer}
    → add_web_handler w uri name config ≡ done (b, w')
    → IsSorted (table w)
    → (lookup path (table w')
        ≡ or_else (lookup path (table w)) (one path uri (handler_of uri name config)))
      × IsSorted (table w')
unfolding add_web_handler
add_web_handler-table w path uri name config {b} {w'} e s =
    elim (Option-cases (create_by_name name)) [
      | inl n ↦
          let f : add_web_handler w uri name config ≡ done (false, w) =
            rw (add_web_handler, n) refl in
          let same : w ≡ w' = cc in
          let none_made : handler_of uri name config ≡ none = rw (handler_of, n) refl in
          subst
            (λ v.
              (lookup path (table v)
                ≡ or_else (lookup path (table w)) (one path uri (handler_of uri name config)))
              × IsSorted (table v))
            same
            (
              unchanged (lookup path (table w))
                  ∙ ap (λ o. or_else (lookup path (table w)) (one path uri o)) (sym none_made),
              s,
            )
      | inr (handler, n) ↦
          let k = λ (result : Status × Handler). done (register w uri name result) in
          let g : add_web_handler w uri name config ≡ (init (ready name handler) uri config >>= k) =
            rw (add_web_handler, n) refl in
          let (result, i, h) = >>=-eq-done (init (ready name handler) uri config) k (sym g ∙ e) in
          let same : (register w uri name result).1 ≡ w' =
            ap (λ r. elim r [ done v ↦ v.1 | _ ↦ w' ]) h in
          let made : handler_of uri name config ≡ accepted (done result) =
            rw (handler_of, n) (ap accepted i) in
          let (found, sorted) = register-table w path uri name result s in
          subst
            (λ v.
              (lookup path (table v)
                ≡ or_else (lookup path (table w)) (one path uri (handler_of uri name config)))
              × IsSorted (table v))
            same
            (found ∙ ap (λ o. or_else (lookup path (table w)) (one path uri o)) (sym made), sorted)
    ]

add_paths-table :
    (w : WebServer) (path : Bytes) (statements : List Config) {w' : WebServer}
    → add_paths w statements ≡ done (true, w')
    → IsSorted (table w)
    → lookup path (table w') ≡ or_else (lookup path (table w)) (first_handler path statements)
unfolding add_paths
add_paths-table w path [] {w'} e s =
    let same : w ≡ w' = cc in
    ap (λ v. lookup path (table v)) (sym same) ∙ unchanged (lookup path (table w))
add_paths-table w path (node (key ∷ uri ∷ name ∷ []) block ∷ statements) {w'} e s =
    let config = node (key ∷ uri ∷ name ∷ []) block in
    let ((b, w₁), g, h) = >>=-eq-done (add_web_handler w uri name config) _ e in
    let (found, sorted) = add_web_handler-table w path uri name config g s in
    add_paths-table w₁ path statements h sorted
    ∙ ap (λ o. or_else o (first_handler path statements)) found
    ∙ or_else_assoc (lookup path (table w)) (one path uri (handler_of uri name config))
        (first_handler path statements)
    ∙ ap (or_else (lookup path (table w)))
        (one-or_else path uri (handler_of uri name config) (first_handler path statements))
add_paths-table w path (node [] block ∷ statements) e s = cc
add_paths-table w path (node (p ∷ []) block ∷ statements) e s = cc
add_paths-table w path (node (p ∷ q ∷ []) block ∷ statements) e s = cc
add_paths-table w path (node (p ∷ q ∷ r ∷ t ∷ u) block ∷ statements) e s = cc

set_default-table :
    (sockets : Sockets) (w : WebServer) (name : Option Bytes) {w' : WebServer}
    → set_default sockets w name ≡ done (true, w')
    → table w' ≡ table w
unfolding set_default
set_default-table sockets w none e = cc
set_default-table sockets w (some name) {w'} e = elim (Option-cases (create_by_name name)) [
  | inl n ↦
      let f : set_default sockets w (some name) ≡ done (false, w) = rw (set_default, n) refl in cc
  | inr (handler, n) ↦
      let set : WebServer = record w {
        handler_mapping = record (w.handler_mapping) { default_handler = some handler };
        status = set_default_handler name w.status;
      } in
      let f : set_default sockets w (some name) ≡ done (port_valid sockets w.port == 0, set) =
        rw (set_default, n) refl in
      sym (ap (λ r. elim r [ done v ↦ table v.1 | _ ↦ table w ]) (sym f ∙ e))
]

-- The handlers that a configuration gives to a path.
abbrev pub HandlersOf : Config → Bytes → Option Handler → Type 0
HandlersOf config path handler =
    (statements : List Config) × (find_all (codes "path") (children config) ≡ some statements)
    × (handler ≡ first_handler path statements)

add_statements-table :
    (sockets : Sockets) (path : Bytes) (w : WebServer) {w' : WebServer}
    → add_statements sockets w ≡ done (true, w')
    → table w ≡ []
    → HandlersOf w.config path (lookup path (table w'))
unfolding add_statements lookup
add_statements-table sockets path w {w'} e empty =
    let (statements, f, g) =
      >>=-eq-done (or_undefined (find_all (codes "path") (children w.config))) _ e in
    let ((b, added), h, i) = >>=-eq-done (add_paths w statements) _ g in
    elim (Bool-cases b) [
      | inl t ↦
          let (tokens, k, l) =
            >>=-eq-done (or_undefined (find_tokens (codes "default") (children w.config)))
              (λ tokens. set_default sockets added (only_second tokens)) (sym (rw t refl) ∙ i) in
          let returned : add_paths w statements ≡ done (true, added) =
            h ∙ ap (λ c. done (c, added)) t in
          (
            statements,
            or_undefined-done _ f,
            ap (lookup path) (set_default-table sockets added (only_second tokens) l)
                ∙ add_paths-table w path statements returned
                    (subst (λ m. IsSorted m) (sym empty) tt)
                ∙ ap (λ m. or_else (lookup path m) (first_handler path statements)) empty,
          )
      | inr t ↦ cc
    ]

set_port-table :
    (sockets : Sockets) (path : Bytes) (w : WebServer) (text : Option Bytes) {w' : WebServer}
    → set_port sockets w text ≡ done (true, w')
    → HandlersOf w.config path (lookup path (table w'))
unfolding set_port
set_port-table sockets path w none e = cc
set_port-table sockets path w (some text) {w'} e =
    let (port, f, g) = >>=-eq-done (or_undefined (atoi text)) _ e in
    let set = record w { port = port } in
    let emptied = record set {
      handler_mapping = record (set.handler_mapping) { request_handlers = [] };
    } in
    elim (Bool-cases (exceeds port 65535)) [
      | inl t ↦
          let h : ◌≡◌ {A = Run (Bool × WebServer)} (done (false, set)) (done (true, w')) =
            sym (rw t refl) ∙ g in
          cc
      | inr t ↦ add_statements-table sockets path emptied (sym (rw t refl) ∙ g) refl
    ]

-- When `Init` accepts a configuration, the handler that the table has under a path is that of the first
-- `path` statement for it whose handler can be created and does not refuse its block, and the table has
-- no path but those.
pub init_server-table :
    (sockets : Sockets) (path : Bytes) (server : WebServer) {w : WebServer}
    → init_server sockets server ≡ done (true, w)
    → HandlersOf server.config path (lookup path w.handler_mapping.request_handlers)
unfolding init_server
init_server-table sockets path server e =
    let (tokens, f, g) =
      >>=-eq-done (or_undefined (find_tokens (codes "port") (children server.config))) _ e in
    set_port-table sockets path server (only_second tokens) g
