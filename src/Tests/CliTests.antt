-- ===== src/Tests/CliTests.antt =====
-- Tests of src/cli: what is shown, and a session at the terminal.
use cpp_db.Base.{atoi, arith, Bytes, Returns, [], codes, none, refl, some, true, ◌++◌, ◌∷◌, ◌≡◌}
use cpp_db.Execution.State.{Status}
use cpp_db.Network.Protocol.{serialize_exec_result}
use cpp_db.Network.Sockets.{Sockets}
use cpp_db.Cli.Display.{display_response}
use cpp_db.Cli.Display.Whole.{EndsUnquoted, Lines, display_response-Lines, last_byte}
use cpp_db.Cli.Display.Errors.{display_response-serialize_exec_result}
use cpp_db.Cli.ClientMain.{greeting, help_text, parse_port, client_main}
use cpp_db.Cli.ClientMain.Ending.{Ended, Unquoted, client_main-Ended}
use cpp_db.Tests.Fixtures.{log_disk, people}
use cpp_db.Network.Server.{recv_line}
use cpp_db.Cli.ServerMain.{Run, server_main}

abbrev done_reply : Bytes
done_reply = codes "{\"status\":\"ok\",\"message\":\"Query OK\"}"

display_runs : display_response done_reply ≡ some (codes "OK\n  message: Query OK\n")
unfolding display_response
display_runs = refl

-- A text that ends where a value is to begin is read behind its end.
cut_runs : display_response (codes "{\"status\":\"ok\",\"message\":\"") ≡ none
unfolding display_response
cut_runs = refl

done_reply-EndsUnquoted : EndsUnquoted done_reply
unfolding last_byte
done_reply-EndsUnquoted = λ e. omega arith

display_response-Lines_example : Returns (display_response done_reply) Lines
display_response-Lines_example = display_response-Lines done_reply done_reply-EndsUnquoted

display_response-serialize_exec_result_example :
    display_response (
      serialize_exec_result people
        (record { status = Status.error; message = codes "no"; has_table = true }))
    ≡ some (codes "ERROR: no\n")
display_response-serialize_exec_result_example =
    display_response-serialize_exec_result people (codes "no") true
      (λ e. omega arith, (λ e. omega arith, tt))

-- A server that gives each request the same answer, as the log of what it is sent.
abbrev steady : Sockets
steady = record {
  Net = Bytes;
  socket = λ n. (true, n);
  getaddrinfo = λ host. none;
  inet_addr = λ host. 0;
  connect = λ address port n. (true, n);
  write = λ text n. (true, n ++ text);
  incoming = λ n. done_reply ++ 10 ∷ [];
  close = λ n. n;
}

steady-Unquoted : Unquoted steady
unfolding last_byte recv_line
steady-Unquoted n = λ e. omega arith

client_main-Ended_example :
    Returns (client_main steady [] (codes "use db\nexit\n") []) (Ended steady [])
client_main-Ended_example = client_main-Ended steady steady-Unquoted [] (codes "use db\nexit\n") []

steady_runs :
    client_main steady (codes "db" ∷ codes "80" ∷ []) (codes "help\nuse db\n") []
    ≡ some (record {
      code = 0;
      out =
          greeting (codes "db") 80
          ++ (codes "minidb> "
              ++ (help_text ++ codes "minidb> OK\n  message: Query OK\nminidb> Goodbye.\n"));
      err = [];
      net = codes "{\"type\":\"sql\",\"sql\":\"use db\"}\n";
    })
unfolding client_main atoi
steady_runs = refl

port_runs :
    (parse_port (codes "65535") ≡ some 65535)
    × (parse_port (codes "65536") ≡ none)
    × (parse_port (codes "0") ≡ none)
    × (parse_port (codes "3307x") ≡ some 3307)
unfolding parse_port
port_runs = (refl, refl, refl, refl)

-- A port that is no number ends the server with a message, whatever the system would have done.
bad_port_runs :
    server_main log_disk
      (record { socket = true; bind = λ port. true; listen = true })
      (codes "x" ∷ [])
      []
      []
    ≡ some (Run.exits (codes "Invalid port: x\n"))
unfolding server_main parse_port
bad_port_runs = refl
