-- ===== src/Cli/ClientMain.antt =====
-- `main` of src/cli/client_main.cpp: statements are read from the terminal, each is sent to the server,
-- and what it answers is shown.
pub mod Ending
use cpp_db.Base.{
  print_nat, not, Bool, Bytes, List, Option, [], codes, false, if◌then◌else◌, is_empty, length,
  none, pos, some, str_eq, suc, true, zero, ℕ, ℤ, ◌+◌, ◌++◌, ◌==◌, ◌||◌, ◌∷◌, atoi, ltb_ℤ, pos_part,
  print_int,
}
use cpp_db.Storage.File.{fgets}
use cpp_db.Network.Server.{c_string}
use cpp_db.Network.Sockets.{Sockets}
use cpp_db.Network.Client.{send_exit, send_sql}
use cpp_db.Cli.Display.{display_response, text_behind}

-- The loop that cuts line breaks off the end of the input.
unfoldable pub trim_end : Bytes → Bytes
trim_end [] = []
trim_end (c ∷ cs) = elim (trim_end cs) [
  | [] ↦ if c == 10 || c == 13 then [] else c ∷ []
  | d ∷ ds ↦ c ∷ d ∷ ds
]

-- `read_line`: the line, and what is left to read.
unfoldable pub read_line : Bytes → Option (Bytes × Bytes)
unfolding fgets c_string trim_end
read_line stdin = elim (fgets stdin) [
  | none ↦ none
  | some (line, rest) ↦ some (trim_end (c_string line), rest)
]

-- The port of an argument: none if it is out of range.
unfoldable pub parse_port : Bytes → Option ℕ
unfolding atoi
parse_port arg =
    let port = atoi arg in
    if not (ltb_ℤ (pos 0) port) || ltb_ℤ (pos 65535) port then none else some (pos_part port)

-- The UTF-8 bytes of the dash in the texts.
abbrev pub em_dash : Bytes
em_dash = 226 ∷ 128 ∷ 148 ∷ []

abbrev pub help_text : Bytes
help_text =
    codes "Commands:\n"
    ++ ((codes "  <SQL>  " ++ (em_dash ++ codes " send SQL statement to server\n"))
        ++ ((codes "  exit   " ++ (em_dash ++ codes " quit\n"))
            ++ ((codes "  help   " ++ (em_dash ++ codes " show this message\n"))
                ++ (codes "\nSupported SQL:\n"
                    ++ (codes "  create database <name>\n"
                        ++ (codes "  drop database <name>\n"
                            ++ (codes "  use <name>\n"
                                ++ (codes "  create table <name> (<col> <type> [primary], ...)\n"
                                    ++ (codes "  drop table <name>\n"
                                        ++ (codes "  select <col> from <table> [where <cond>]\n"
                                            ++ (codes "  delete from <table> [where <cond>]\n"
                                                ++ (codes
                                                      "  insert into <table> values (<val>, ...)\n"
                                                    ++ codes
                                                        "  update <table> set <col> = <val> [where <cond>]\n"))))))))))))

-- The two lines that are printed at the start.
unfoldable pub greeting : Bytes → ℕ → Bytes
unfolding print_nat
greeting host port =
    codes "MiniDB Client "
    ++ (em_dash
        ++ (codes " connecting to "
            ++ (host
                ++ (codes ":"
                    ++ (print_nat port
                        ++ codes
                            "\nType SQL statements or 'exit' to quit, 'help' for help.\n\n")))))

-- What is printed for the answer to the request to exit.
unfoldable pub farewell : Bytes → Bytes
unfolding text_behind
farewell resp = if is_empty resp then [] else elim (text_behind (codes "\"message\":\"") resp) [
  | none ↦ []
  | some msg ↦ msg ++ codes "\n"
]

-- How the program ends: the exit code, and what is printed to the two outputs.
pub record Exit (Net : Type 0) : Type 0 where
  pub code : ℕ
  pub out : Bytes
  pub err : Bytes
  pub net : Net

module _ (net : Sockets) where
  open net use {Net}

  -- What a round of the loop prints, whether the loop goes on, and the state behind it. None is a fault.
  unfoldable pub round : Bytes → ℕ → Bytes → Net → Option (Bytes × Bool × Net)
  unfolding str_eq send_exit farewell send_sql display_response
  round host port input n =
      if is_empty input
      then some ([], true, n)
      else if str_eq input (codes "exit") || str_eq input (codes "quit")
      then (let (resp, n1) = send_exit net host port n in some (farewell resp, false, n1))
      else if str_eq input (codes "help")
      then some (help_text, true, n)
      else (let (response, n1) = send_sql net host port input n in
          if is_empty response
          then some (codes "ERROR: No response from server. Connection may be lost.\n", false, n1)
          else elim (display_response response) [ none ↦ none | some text ↦ some (text, true, n1) ])

  -- The loop, with fuel, on what is left of the input.
  unfoldable pub repl : ℕ → Bytes → ℕ → Bytes → Net → Option (Bytes × Net)
  unfolding read_line round
  repl zero host port stdin n = none
  repl (suc fuel) host port stdin n = elim (read_line stdin) [
    | none ↦ some (codes "minidb> ", n)
    | some (input, rest) ↦ elim (round host port input n) [
      | none ↦ none
      | some (text, connected, n1) ↦ elim connected [
        | false ↦ some (codes "minidb> " ++ text, n1)
        | true ↦ elim (repl fuel host port rest n1) [
          | none ↦ none
          | some (more, n2) ↦ some (codes "minidb> " ++ (text ++ more), n2)
        ]
      ]
    ]
  ]

  -- `main` from the greeting on. Each round takes a byte of the input at least.
  unfoldable pub session : Bytes → ℕ → Bytes → Net → Option (Exit Net)
  unfolding repl greeting
  session host port stdin n = elim (repl (length stdin + 1) host port stdin n) [
    | none ↦ none
    | some (text, n1) ↦ some (record {
      code = 0;
      out = greeting host port ++ (text ++ codes "Goodbye.\n");
      err = [];
      net = n1;
    })
  ]

  -- `main` on its arguments without the program's name.
  unfoldable pub client_main : List Bytes → Bytes → Net → Option (Exit Net)
  unfolding parse_port session
  client_main [] stdin n = session (codes "127.0.0.1") 3307 stdin n
  client_main (host ∷ []) stdin n = session host 3307 stdin n
  client_main (host ∷ arg ∷ args) stdin n = elim (parse_port arg) [
    | none ↦ some (record {
      code = 1;
      out = [];
      err = codes "Invalid port: " ++ (arg ++ codes "\n");
      net = n;
    })
    | some port ↦ session host port stdin n
  ]
