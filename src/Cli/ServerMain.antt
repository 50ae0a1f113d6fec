-- ===== src/Cli/ServerMain.antt =====
-- `main` of src/cli/server_main.cpp, which reads the port by the code of the client's `main`.
use cpp_db.Base.{Bytes, List, Option, [], codes, none, some, ℕ, ◌++◌, ◌∷◌}
use cpp_db.Storage.Disk.{FileSystem}
use cpp_db.Execution.State.{Executor}
use cpp_db.Network.Server.{Connection, Ending, run_server}
use cpp_db.Network.Listen.{Listener, Opening, open_listener}
use cpp_db.Cli.ClientMain.{parse_port}

module _ (fs : FileSystem) where
  open fs use {Disk}

  -- What the program does: exit code 1 with a message on the standard error, or the loop of the server, with
  -- what is printed before it, the state behind it and how it ends.
  pub data Run : Type 0 where
    exits : Bytes → Run
    serves : Bytes → Executor Disk → Ending → Run

  -- `run_server` on a port.
  unfoldable pub serve_on : Listener → ℕ → Disk → List Connection → Option Run
  unfolding run_server open_listener
  serve_on l port disk cs = elim (open_listener l port) [
    | Opening.failed err ↦ some (Run.exits err)
    | Opening.listening out ↦ elim (run_server fs disk cs) [
      | none ↦ none
      | some (x, ending) ↦ some (Run.serves out x ending)
    ]
  ]

  -- `main` on its arguments without the program's name.
  unfoldable pub server_main : Listener → List Bytes → Disk → List Connection → Option Run
  unfolding parse_port serve_on
  server_main l [] disk cs = serve_on l 3307 disk cs
  server_main l (arg ∷ args) disk cs = elim (parse_port arg) [
    | none ↦ some (Run.exits (codes "Invalid port: " ++ (arg ++ codes "\n")))
    | some port ↦ serve_on l port disk cs
  ]
