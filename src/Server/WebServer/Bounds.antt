-- ===== src/Server/WebServer/Bounds.antt =====
-- The port that a server is bound to, from `atoi` in `Init` to the conversion in `port_valid`.
use caviar_hacker_grid.Base.{
  ℕ, suc, ◌<◌, ◌^◌, true, false, [], ◌∷◌, some, ◌≡◌, ◌∙◌, refl, sym, ap, arith, subst, ==_iff,
}
use caviar_hacker_grid.Base.Number.{
  ℤ, pos, negsuc, atoi, exceeds, is_digit, digits_value, skip_space, read_signed, signed,
}
use caviar_hacker_grid.Base.Run.{done}
use caviar_hacker_grid.Base.Text.{Bytes, codes}
use caviar_hacker_grid.Config.{children}
use caviar_hacker_grid.Config.Search.{matching, first_tokens, find_lem}
use caviar_hacker_grid.Config.Trees.{AreNamed}
use caviar_hacker_grid.Handlers.Proxy.Stream.Reading.{Digits, to_decimal-Digits, to_decimal-cons}
use caviar_hacker_grid.Http.Decimal.RoundTrip.{digits_value-to_decimal}
use caviar_hacker_grid.Server.Ports.{
  Sockets, port_valid, unsigned_short, IsBoundAs, unsigned_short-IsBoundAs,
}
use caviar_hacker_grid.Server.Status.{new_status}
use caviar_hacker_grid.Server.WebServer.{WebServer, init_server, set_port, int_to_string}
use caviar_hacker_grid.Server.WebServer.Setup.{set_port_read}

-- The range of `int`.
abbrev pub InInt : ℤ → Type 0
InInt (pos n) = n < 2 ^ 31
InInt (negsuc n) = n < 2 ^ 31

read_pos :
    (n d : ℕ) (ds : Bytes)
    → is_digit d ≡ true
    → digits_value 0 (d ∷ ds) ≡ n
    → n < 2 ^ 31
    → read_signed (some (pos 0)) (signed (skip_space (d ∷ ds))) ≡ some (pos n)
unfolding skip_space
read_pos n d ds p e h = ground arith

read_negsuc :
    (n d : ℕ) (ds : Bytes)
    → is_digit d ≡ true
    → digits_value 0 (d ∷ ds) ≡ suc n
    → n < 2 ^ 31
    → read_signed (some (pos 0)) (signed (skip_space (b'-' ∷ d ∷ ds))) ≡ some (negsuc n)
unfolding skip_space
read_negsuc n d ds p e h = ground arith

-- `atoi` reads back the decimal digits of an `int`, with the sign of a negative one.
atoi-int_to_string : (z : ℤ) → InInt z → atoi (int_to_string z) ≡ some z
unfolding atoi
atoi-int_to_string (pos n) h =
    let (d, ds, e) = to_decimal-cons n in
    let all : Digits (d ∷ ds) = subst Digits e (to_decimal-Digits n) in
    let value : digits_value 0 (d ∷ ds) ≡ n =
      subst (λ s. digits_value 0 s ≡ n) e (digits_value-to_decimal n) in
    ap atoi e ∙ read_pos n d ds all.0 value h
atoi-int_to_string (negsuc n) h =
    let (d, ds, e) = to_decimal-cons (suc n) in
    let all : Digits (d ∷ ds) = subst Digits e (to_decimal-Digits (suc n)) in
    let value : digits_value 0 (d ∷ ds) ≡ suc n =
      subst (λ s. digits_value 0 s ≡ suc n) e (digits_value-to_decimal (suc n)) in
    ap (λ s. atoi (b'-' ∷ s)) e ∙ read_negsuc n d ds all.0 value h

-- If every statement of the configuration has a word, and the first `port` statement is `port` and the
-- decimal digits of an `int`, with the sign of a negative one, then a server with a new status that `Init`
-- accepts has that number as its port, which is not above 65535 and is bound without an error: as it is
-- unless it is negative, and then 65536 is added until it is not.
pub init_server-IsBoundAs :
    (sockets : Sockets) (w : WebServer) (port : ℤ) {w' : WebServer}
    → AreNamed (children w.config)
    → first_tokens (matching (codes "port") (children w.config))
      ≡ codes "port" ∷ int_to_string port ∷ []
    → InInt port
    → init_server sockets w ≡ done (true, w')
    → w.status ≡ new_status
    → (w'.port ≡ port)
      × (exceeds port 65535 ≡ false)
      × (port_valid sockets port ≡ 0)
      × IsBoundAs port (unsigned_short port)
unfolding init_server
init_server-IsBoundAs sockets w port {w'} words stated range e a =
    let (_, _, found) = find_lem (codes "port") words in
    let read : init_server sockets w ≡ set_port sockets w (some (int_to_string port)) =
      rw (init_server, found, stated) refl in
    let (small, ((same, _, _, _), bound, _, _, _)) =
      set_port_read sockets w (int_to_string port) port (atoi-int_to_string port range)
        (sym read ∙ e) a in
    let (f, _) = ==_iff (port_valid sockets port) 0 in
    (same, small, f bound, unsigned_short-IsBoundAs port small)
