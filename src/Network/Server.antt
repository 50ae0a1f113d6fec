-- ===== src/Network/Server.antt =====
-- src/network/server.cpp: the lines of a connection, the answer to each, and the loop of the server.
-- A connection is what its client sends until it closes its end, and how the writing of each answer ends.
pub mod Invariant
pub mod Lines
pub mod Exit
use cpp_db.Base.{
  [], codes, false, if◌then◌else◌, is_empty, length, none, not, some, suc, true, zero, ℕ, ◌+◌, ◌==◌,
  ◌||◌, ◌∷◌, Bool, List, Bytes, Option,
}
use cpp_db.Storage.Disk.{FileSystem}
use cpp_db.Parser.Ast.{SqlStatement}
use cpp_db.Execution.State.{Executor}
use cpp_db.Execution.Executor.{execute, new_executor, shutdown}
use cpp_db.Network.Protocol.{
  is_exit_request, parse_request_sql, serialize_error, serialize_exec_result, serialize_status,
}
use cpp_db.Parser.Statements.{parse}

-- The loop of `recv_line` with the room that is left in the buffer: the bytes before the newline, without
-- carriage returns, and what is left to read.
unfoldable pub fill_line : ℕ → Bytes → Bytes × Bytes
fill_line zero stream = ([], stream)
fill_line (suc room) [] = ([], [])
fill_line (suc room) (c ∷ cs) = elim (c == 10) [
  | true ↦ ([], cs)
  | false ↦ elim (c == 13) [
    | true ↦ fill_line (suc room) cs
    | false ↦ let (line, rest) = fill_line room cs in (c ∷ line, rest)
  ]
]

-- `String(buf)`: the bytes before the first NUL.
unfoldable pub c_string : Bytes → Bytes
c_string [] = []
c_string (c ∷ cs) = let rest = c_string cs in if c == 0 then [] else c ∷ rest

-- `recv_line`, with a buffer of MAX_MSG bytes.
unfoldable pub recv_line : Bytes → Bytes × Bytes
unfolding fill_line c_string
recv_line stream = let (line, rest) = fill_line 8191 stream in (c_string line, rest)

-- How the two calls of `write` for an answer end: both are done, one returns an error, or one raises SIGPIPE,
-- as POSIX has it for a connection that the client has closed. The program leaves that signal at its default,
-- which kills it.
pub data Sending : Type 0 where
  delivered : Sending
  refused : Sending
  signalled : Sending

-- What a client sends, and how the sending of the answer with a number ends.
pub record Connection : Type 0 where
  pub stream : Bytes
  pub writes : ℕ → Sending

-- How a loop ends: the server goes on to accept connections, it leaves its loop by a request to exit, or it is
-- killed.
pub data Ending : Type 0 where
  accepts : Ending
  exits : Ending
  dies : Ending

-- `stmt.kind == INVALID`, and `stmt.error_msg`, which is empty for the other kinds.
abbrev pub is_invalid : SqlStatement → Bool
is_invalid (SqlStatement.invalid msg) = true
is_invalid _ = false

abbrev pub error_msg : SqlStatement → Bytes
error_msg (SqlStatement.invalid msg) = msg
error_msg _ = []

module _ (fs : FileSystem) where
  open fs use {Disk}

  -- The state behind a request, with the answer and whether the server goes on.
  pub record Reply : Type 0 where
    pub executor : Executor Disk
    pub response : Bytes
    pub running : Bool

  -- The answer to a statement that was parsed.
  unfoldable pub execute_parsed : Executor Disk → SqlStatement → Option Reply
  unfolding serialize_error serialize_exec_result execute
  execute_parsed x stmt =
      if is_invalid stmt
      then some (record {
        executor = x;
        response =
            serialize_error
              (if is_empty (error_msg stmt) then codes "Parse error" else error_msg stmt);
        running = true;
      })
      else elim (execute fs x stmt) [
        | none ↦ none
        | some (y, result) ↦ some (record {
          executor = y;
          response = serialize_exec_result y.result_table result;
          running = true;
        })
      ]

  -- The answer to the text of a statement.
  unfoldable pub answer_sql : Executor Disk → Bytes → Option Reply
  unfolding serialize_error parse execute_parsed
  answer_sql x sql =
      if is_empty sql
      then some (record {
        executor = x;
        response = serialize_error (codes "Invalid request: missing 'sql' field");
        running = true;
      })
      else elim (parse sql) [ none ↦ none | some stmt ↦ execute_parsed x stmt ]

  -- The body of the loop over the requests of a connection.
  unfoldable pub answer_request : Executor Disk → Bytes → Option Reply
  unfolding is_exit_request serialize_status parse_request_sql answer_sql
  answer_request x request =
      if is_exit_request request
      then some (record {
        executor = x;
        response = serialize_status (codes "ok") (codes "goodbye");
        running = false;
      })
      else answer_sql x (parse_request_sql request)

  -- What a connection leaves: the state, the answers that are sent, and what the server does then.
  pub record Served : Type 0 where
    pub executor : Executor Disk
    pub answers : List Bytes
    pub ending : Ending

  -- One round of the loop over the requests of a connection: `next` is the rest of the loop. An answer that
  -- cannot be written is lost; an error ends the connection, and the signal the process.
  unfoldable pub serve_request :
      (Executor Disk → Option Served) → Executor Disk → Sending → Bytes → Option Served
  unfolding answer_request
  serve_request next x sending request =
      if is_empty request
      then some (record { executor = x; answers = []; ending = accepts })
      else elim (answer_request x request) [
        | none ↦ none
        | some r ↦ elim sending [
          | signalled ↦ some (record { executor = r.executor; answers = []; ending = dies })
          | refused ↦ some (record {
            executor = r.executor;
            answers = [];
            ending = if r.running then accepts else exits;
          })
          | delivered ↦ elim r.running [
            | false ↦
                some (record { executor = r.executor; answers = r.response ∷ []; ending = exits })
            | true ↦ elim (next r.executor) [
              | none ↦ none
              | some s ↦ some (record s { answers = r.response ∷ s.answers })
            ]
          ]
        ]
      ]

  -- The loop, with fuel, on what is left of the stream. The answer with number `n` is the next.
  unfoldable pub serve : ℕ → Executor Disk → (ℕ → Sending) → ℕ → Bytes → Option Served
  unfolding recv_line serve_request
  serve zero x writes n stream = none
  serve (suc fuel) x writes n stream =
      let (request, rest) = recv_line stream in
      serve_request (λ y. serve fuel y writes (suc n) rest) x (writes n) request

  -- A connection from its first request on. A request takes one byte at least, so the number of the bytes
  -- and one more are fuel enough.
  unfoldable pub serve_connection : Executor Disk → Connection → Option Served
  unfolding serve
  serve_connection x c = serve (length c.stream + 1) x c.writes 0 c.stream

  -- The loop over the connections that are accepted: the state when an exit request or the signal has ended
  -- it, or behind the last connection so far, and which of these it is.
  unfoldable pub serve_all : Executor Disk → List Connection → Option (Executor Disk × Ending)
  unfolding serve_connection
  serve_all x [] = some (x, accepts)
  serve_all x (c ∷ cs) = elim (serve_connection x c) [
    | none ↦ none
    | some s ↦ elim s.ending [
      | accepts ↦ serve_all s.executor cs
      | exits ↦ some (s.executor, exits)
      | dies ↦ some (s.executor, dies)
    ]
  ]

  -- `run_server` on a disk, from the constructor of the executor to its shutdown at the exit. Of a process that
  -- is killed, the disk is left.
  unfoldable pub run_server : Disk → List Connection → Option (Executor Disk × Ending)
  unfolding new_executor serve_all shutdown
  run_server disk cs = elim (serve_all (new_executor fs (codes "data") disk) cs) [
    | none ↦ none
    | some (x, ending) ↦ elim ending [
      | accepts ↦ some (x, accepts)
      | exits ↦ some (shutdown fs x, exits)
      | dies ↦ some (x, dies)
    ]
  ]
