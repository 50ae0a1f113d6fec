-- ===== src/Network/Sockets.antt =====
-- What the client uses of the sockets of the system, as an interface: POSIX is not modelled here. One
-- socket is open at a time; what its peer sends depends on what was written to it.
use cpp_db.Base.{Bool, Bytes, Option, ℕ}

pub record Sockets : Type 1 where
  pub Net : Type 0
  -- `socket(AF_INET, SOCK_STREAM, 0)`; false for INVALID_SOCKET
  pub socket : Net → Bool × Net
  -- `getaddrinfo(host)`: the first address, none if it fails or gives none
  pub getaddrinfo : Bytes → Option ℕ
  -- `inet_addr(host)`
  pub inet_addr : Bytes → ℕ
  -- `connect` to an address and a port; false for SOCKET_ERROR
  pub connect : ℕ → ℕ → Net → Bool × Net
  -- `write`; false if it returns an error (SIGPIPE, which would kill the client, is outside the model)
  pub write : Bytes → Net → Bool × Net
  -- the bytes that the calls of `read` give one by one, until the first that gives none
  pub incoming : Net → Bytes
  -- `close`
  pub close : Net → Net
