-- ===== src/Network/Listen.antt =====
-- The opening of the server's socket (`run_server` of src/network/server.cpp, up to its loop).
use cpp_db.Base.{Bool, Bytes, codes, if◌then◌else◌, not, print_nat, ℕ, ◌%◌, ◌++◌}

-- Whether the calls of the system succeed: POSIX is not modelled here.
pub record Listener : Type 0 where
  -- `socket(AF_INET, SOCK_STREAM, 0)`
  pub socket : Bool
  -- `bind` to a port
  pub bind : ℕ → Bool
  -- `listen`
  pub listen : Bool

-- A message on the standard error and exit code 1, or one on the standard output before the loop.
pub data Opening : Type 0 where
  failed : Bytes → Opening
  listening : Bytes → Opening

unfoldable pub open_listener : Listener → ℕ → Opening
unfolding print_nat
open_listener l port =
    if not l.socket
    then Opening.failed (codes "Failed to create socket\n")
    else if not (l.bind (port % 65536))
    then Opening.failed (codes "Failed to bind to port " ++ (print_nat port ++ codes "\n"))
    else if not l.listen
    then Opening.failed (codes "Failed to listen\n")
    else Opening.listening
        (codes "MiniDB Server listening on port " ++ (print_nat port ++ codes "...\n"))
