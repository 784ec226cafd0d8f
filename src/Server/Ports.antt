-- ===== src/Server/Ports.antt =====
-- server/webserver.cc, `WebServer::port_valid`, and the port that the acceptor of server/server.cc is
-- bound to.
use caviar_hacker_grid.Base.{
  ℕ, suc, ◌+◌, ◌*◌, ◌-◌, ◌^◌, ◌≤◌, ◌<◌, ◌==◌, false, ◌≡◌, if◌then◌else◌, arith, ◌%◌, ◌/◌,
}
use caviar_hacker_grid.Base.Number.{ℤ, pos, negsuc, exceeds}

-- The error codes of the system's calls, 0 for success: of opening a socket for IP version 4, of
-- binding such a socket to a 16-bit port, and of listening on that port.
pub record Sockets : Type 0 where
  pub open_error : ℕ
  pub bind_error : ℕ → ℕ
  pub listen_error : ℕ → ℕ

-- `(unsigned short)port_`, and the conversion to the parameter of `tcp::endpoint`.
unfoldable pub unsigned_short : ℤ → ℕ
unsigned_short (pos n) = n % 2 ^ 16
unsigned_short (negsuc n) = (2 ^ 16 - 1) - n % 2 ^ 16

-- `port_valid`.
unfoldable pub port_valid : Sockets → ℤ → ℕ
unfolding unsigned_short
port_valid sockets port =
    if sockets.open_error == 0 then sockets.bind_error (unsigned_short port) else sockets.open_error

-- A port that is not above 65535 is bound as it is unless it is negative, and then 65536 is added
-- until it is not.
pub record IsBoundAs (port : ℤ) (bound : ℕ) : Type 0 where
  pub in_range : bound < 65536
  pub as_is : (n : ℕ) → port ≡ pos n → bound ≡ n
  pub wrapped : (n : ℕ) → port ≡ negsuc n → (k : ℕ) × (bound + suc n ≡ k * 65536)

pub unsigned_short-IsBoundAs :
    (port : ℤ) → exceeds port 65535 ≡ false → IsBoundAs port (unsigned_short port)
unfolding unsigned_short
unsigned_short-IsBoundAs (pos n) e =
    let small : n ≤ 65535 = ground arith in
    record {
      in_range = omega arith;
      as_is = λ m f. let g : n ≡ m = cc in omega (arith, g, small);
      wrapped = λ m f. cc;
    }
unsigned_short-IsBoundAs (negsuc n) e = record {
  in_range = omega arith;
  as_is = λ m f. cc;
  wrapped = λ m f. let g : n ≡ m = cc in (suc (n / 65536), omega (arith, g));
}
