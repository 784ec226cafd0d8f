-- ===== src/Server/WebServer/Setup.antt =====
-- What holds of a server that `AddHandler` and `Init` of server/webserver.cc have set up.
use caviar_hacker_grid.Base.{
  ◌==◌, Bool, true, false, List, [], ◌∷◌, Option, none, some, ◌≡◌, ◌∙◌, refl, ap, sym, arith,
  Ordering, Bool-cases, inl, inr, Option-cases, if◌then◌else◌, subst,
}
use caviar_hacker_grid.Base.Number.{ℤ, exceeds, atoi}
use caviar_hacker_grid.Base.Run.{Run, done, or_undefined, ◌>>=◌, >>=-eq-done}
use caviar_hacker_grid.Base.StdMap.{StdMap, Order, is_new, keep, update, lookup, IsSorted}
use caviar_hacker_grid.Base.StdMap.Laws.{update-IsSorted}
use caviar_hacker_grid.Base.StdMap.Keys.{text_order}
use caviar_hacker_grid.Base.Text.{Bytes, codes, equal}
use caviar_hacker_grid.Config.{Config, node, children, find_all, find_tokens}
use caviar_hacker_grid.Handlers.{Status, Handler, create_by_name}
use caviar_hacker_grid.Handlers.Init.{init, only_second}
use caviar_hacker_grid.Server.Status as ServerStatus
use caviar_hacker_grid.Server.Ports.{Sockets, port_valid}
use caviar_hacker_grid.Server.Status.{new_status, add_handler, set_default_handler}
use caviar_hacker_grid.Server.WebServer.{
  WebServer, is_invalid, register, init_status, add_web_handler, add_paths, set_default,
  add_statements, init_server, set_port,
}

abbrev pub keys {ℓ κ} : {K : Type ℓ} {V : Type κ} → StdMap K V → List K
keys [] = []
keys ((k, v) ∷ m) = k ∷ keys m

module _ {ℓ} {K : Type ℓ} ⦃o : Order K⦄ where
  -- The keys behind an update, from the keys before.
  abbrev keys_with : K → List K → List K
  keys_with k [] = k ∷ []
  keys_with k (j ∷ js) = elim (o.order k j) [
    | Ordering.lt ↦ k ∷ j ∷ js
    | Ordering.eq ↦ k ∷ js
    | Ordering.gt ↦ j ∷ keys_with k js
  ]

module _ {ℓ κ} {K : Type ℓ} {V : Type κ} ⦃o : Order K⦄ where
  keys-update :
      (f : Option V → V) (k : K) (m : StdMap K V) → keys (update f k m) ≡ keys_with k (keys m)
  unfolding update
  keys-update f k [] = refl
  keys-update f k ((j, v) ∷ m) = ground (arith, keys-update f k m)

  keys_with_old : (k : K) (m : StdMap K V) → is_new k m ≡ false → keys_with k (keys m) ≡ keys m
  unfolding lookup
  keys_with_old k [] e = cc
  keys_with_old k ((j, w) ∷ m) e = ground (arith, o.eq_iff k j, keys_with_old k m)

-- Nothing has been counted.
abbrev pub NoRequests : ServerStatus.Status → Type 0
NoRequests s = (s.requests ≡ 0) × (s.request_count_by_url ≡ []) × (s.response_count_by_code ≡ [])

-- The port is the one given, no request has been counted, the table of handlers has its keys in order,
-- and they are the paths that the status has as registered.
abbrev pub Agrees : ℤ → WebServer → Type 0
Agrees port w =
    (w.port ≡ port)
    × NoRequests w.status
    × IsSorted w.handler_mapping.request_handlers
    × (keys w.handler_mapping.request_handlers ≡ keys w.status.request_handlers)

register-Agrees :
    {port : ℤ} (w : WebServer) (path name : Bytes) (result : Status × Handler)
    → Agrees port w
    → Agrees port (register w path name result).1
unfolding register add_handler
register-Agrees {port} w path name (status, handler) (p, q, s, a) =
    let sorted = update-IsSorted (keep handler) path w.handler_mapping.request_handlers s in
    let kept = keys-update (keep handler) path w.handler_mapping.request_handlers in
    let after =
      kept ∙ ap (keys_with path) a ∙ sym (keys-update (keep name) path w.status.request_handlers) in
    elim (Bool-cases (is_invalid status)) [
      | inl bad ↦ rw (register, bad) (p, q, s, a)
      | inr good ↦ elim (Bool-cases (is_new path w.handler_mapping.request_handlers)) [
        | inl e ↦ rw (register, good, e, add_handler) (p, q, sorted, after)
        | inr e ↦
            rw (register, good, e)
              (p, q, sorted, kept ∙ keys_with_old path w.handler_mapping.request_handlers e ∙ a)
      ]
    ]

-- A call of `AddHandler` that returns, whatever it finds, leaves the port and the counters alone and the
-- handler table in order, and the table and the server's status list the same paths behind it if they
-- did before.
pub add_web_handler-Agrees :
    {port : ℤ} (w : WebServer) (path name : Bytes) (config : Config) {b : Bool} {w' : WebServer}
    → add_web_handler w path name config ≡ done (b, w')
    → Agrees port w
    → Agrees port w'
unfolding add_web_handler
add_web_handler-Agrees {port} w path name config {b} {w'} e a =
    elim (Option-cases (create_by_name name)) [
      | inl n ↦
          let f : add_web_handler w path name config ≡ done (false, w) =
            rw (add_web_handler, n) refl in
          let same : w ≡ w' = cc in subst (Agrees port) same a
      | inr (handler, n) ↦
          let ready = if equal name (codes "StatusHandler") then init_status handler else handler in
          let k = λ (result : Status × Handler). done (register w path name result) in
          let g : add_web_handler w path name config ≡ (init ready path config >>= k) =
            rw (add_web_handler, n) refl in
          let f : (init ready path config >>= k) ≡ done (b, w') = sym g ∙ e in
          let (result, i, h) = >>=-eq-done (init ready path config) k f in
          let same : (register w path name result).1 ≡ w' =
            ap (λ r. elim r [ done v ↦ v.1 | _ ↦ w' ]) h in
          subst (Agrees port) same (register-Agrees w path name result a)
    ]

add_paths-Agrees :
    {port : ℤ} (w : WebServer) (statements : List Config) {b : Bool} {w' : WebServer}
    → add_paths w statements ≡ done (b, w')
    → Agrees port w
    → Agrees port w'
unfolding add_paths
add_paths-Agrees {port} w [] {b} {w'} e a = let same : w ≡ w' = cc in subst (Agrees port) same a
add_paths-Agrees {port} w (node (path ∷ uri ∷ name ∷ []) block ∷ statements) e a =
    let ((b', w1), g, h) =
      >>=-eq-done (add_web_handler w uri name (node (path ∷ uri ∷ name ∷ []) block)) _ e in
    add_paths-Agrees w1 statements h (add_web_handler-Agrees w uri name _ g a)
add_paths-Agrees {port} w (node [] block ∷ statements) {b} {w'} e a =
    let same : w ≡ w' = cc in subst (Agrees port) same a
add_paths-Agrees {port} w (node (p ∷ []) block ∷ statements) {b} {w'} e a =
    let same : w ≡ w' = cc in subst (Agrees port) same a
add_paths-Agrees {port} w (node (p ∷ q ∷ []) block ∷ statements) {b} {w'} e a =
    let same : w ≡ w' = cc in subst (Agrees port) same a
add_paths-Agrees {port} w (node (p ∷ q ∷ r ∷ t ∷ u) block ∷ statements) {b} {w'} e a =
    let same : w ≡ w' = cc in subst (Agrees port) same a

-- The paths agree, the port is the one given and can be bound, and the default handler is the
-- one that has the name in the status.
abbrev pub IsSetUp : Sockets → ℤ → WebServer → Type 0
IsSetUp sockets port w =
    Agrees port w
    × ((port_valid sockets port == 0) ≡ true)
    × (handler : Handler) × (w.handler_mapping.default_handler ≡ some handler)
    × (create_by_name w.status.default_handler ≡ some handler)

set_default-IsSetUp :
    (sockets : Sockets) {port : ℤ} (w : WebServer) (name : Option Bytes) {w' : WebServer}
    → set_default sockets w name ≡ done (true, w')
    → Agrees port w
    → IsSetUp sockets port w'
unfolding set_default set_default_handler
set_default-IsSetUp sockets w none e a = cc
set_default-IsSetUp sockets {port} w (some name) {w'} e (p, q, s, a) =
    elim (Option-cases (create_by_name name)) [
      | inl n ↦
          let f : set_default sockets w (some name) ≡ done (false, w) = rw (set_default, n) refl in
          cc
      | inr (handler, n) ↦
          let set : WebServer = record w {
            handler_mapping = record (w.handler_mapping) { default_handler = some handler };
            status = set_default_handler name w.status;
          } in
          let f : set_default sockets w (some name) ≡ done (port_valid sockets w.port == 0, set) =
            rw (set_default, n) refl in
          let bound : (port_valid sockets port == 0) ≡ true = cc in
          let same : set ≡ w' = cc in
          subst (IsSetUp sockets port) same ((p, q, s, a), bound, handler, refl, n)
    ]

add_statements-IsSetUp :
    (sockets : Sockets) {port : ℤ} (w : WebServer) {w' : WebServer}
    → add_statements sockets w ≡ done (true, w')
    → Agrees port w
    → IsSetUp sockets port w'
unfolding add_statements
add_statements-IsSetUp sockets w {w'} e a =
    let (statements, f, g) =
      >>=-eq-done (or_undefined (find_all (codes "path") (children w.config))) _ e in
    let (added, h, i) = >>=-eq-done (add_paths w statements) _ g in
    let defaulted = or_undefined (find_tokens (codes "default") (children w.config)) >>= λ tokens.
    set_default sockets added.1 (only_second tokens) in
    elim (Bool-cases added.0) [
      | inl t ↦
          let (tokens, k, l) =
            >>=-eq-done (or_undefined (find_tokens (codes "default") (children w.config)))
              (λ tokens. set_default sockets added.1 (only_second tokens)) (sym (rw t refl) ∙ i) in
          set_default-IsSetUp sockets added.1 (only_second tokens) l
            (add_paths-Agrees w statements h a)
      | inr t ↦ cc
    ]

pub or_undefined-done {ℓ} :
    {A : Type ℓ} (o : Option A) {a : A} → or_undefined o ≡ done a → o ≡ some a
or_undefined-done none e = cc
or_undefined-done (some b) e = cc

-- The port is the number that the second token is read as.
pub set_port_read :
    (sockets : Sockets) (w : WebServer) (text : Bytes) (port : ℤ) {w' : WebServer}
    → atoi text ≡ some port
    → set_port sockets w (some text) ≡ done (true, w')
    → w.status ≡ new_status
    → (exceeds port 65535 ≡ false) × IsSetUp sockets port w'
unfolding set_port
set_port_read sockets w text port {w'} f e a =
    let set = record w { port = port } in
    let fresh : NoRequests w.status = subst NoRequests (sym a) (refl, refl, refl) in
    let emptied = record set {
      handler_mapping = record (set.handler_mapping) { request_handlers = [] };
    } in
    let g : (if exceeds port 65535 then done (false, set) else add_statements sockets emptied)
        ≡ done (true, w') =
      sym (rw f refl) ∙ e in
    elim (Bool-cases (exceeds port 65535)) [
      | inl t ↦
          let h : ◌≡◌ {A = Run (Bool × WebServer)} (done (false, set)) (done (true, w')) =
            sym (rw t refl) ∙ g in
          cc
      | inr t ↦ (
        t,
        add_statements-IsSetUp sockets emptied (sym (rw t refl) ∙ g)
            (refl, fresh, tt, ap (λ v. keys v.request_handlers) (sym a)),
      )
    ]

set_port-IsSetUp :
    (sockets : Sockets) (w : WebServer) (text : Option Bytes) {w' : WebServer}
    → set_port sockets w text ≡ done (true, w')
    → w.status ≡ new_status
    → (port : ℤ) × (exceeds port 65535 ≡ false) × IsSetUp sockets port w'
unfolding set_port
set_port-IsSetUp sockets w none e a = cc
set_port-IsSetUp sockets w (some text) e a =
    let (port, f, _) = >>=-eq-done (or_undefined (atoi text)) _ e in
    let (small, set_up) = set_port_read sockets w text port (or_undefined-done (atoi text) f) e a in
    (port, small, set_up)

-- When `Init` accepts the configuration of a server with a new status, the port is not above 65535 and
-- can be bound, the handler table is in order and has the paths that the server's status has, no request
-- is counted, and there is a default handler, of the name that the status has.
pub init_server-IsSetUp :
    (sockets : Sockets) (w : WebServer) {w' : WebServer}
    → init_server sockets w ≡ done (true, w')
    → w.status ≡ new_status
    → (port : ℤ) × (exceeds port 65535 ≡ false) × IsSetUp sockets port w'
unfolding init_server
init_server-IsSetUp sockets w e a =
    let (tokens, f, g) =
      >>=-eq-done (or_undefined (find_tokens (codes "port") (children w.config))) _ e in
    set_port-IsSetUp sockets w (only_second tokens) g a
