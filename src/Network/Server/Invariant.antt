-- ===== src/Network/Server/Invariant.antt =====
-- src/network/server.cpp: the server answers every request without a fault.
use cpp_db.Base.{
  Bool-cases, codes, inl, inr, none, refl, some, ◌⊎◌, true, if◌then◌else◌, Returns, [], arith,
  false, is_empty, length, suc, zero, ℕ, ◌+◌, ◌<◌, ◌∷◌, ◌≡◌, ◌≤◌, List, Bytes, Option,
}
use cpp_db.Parser.Ast.{SqlStatement}
use cpp_db.Storage.Disk.{FileSystem}
use cpp_db.Execution.State.{Executor}
use cpp_db.Parser.Statements.Shape.{parse-IsFormed, IsFormed}
use cpp_db.Execution.Modify.{IsReady}
use cpp_db.Execution.Executor.Keeps.{NamesDatabase}
use cpp_db.Execution.Outcome.{WellFormed}
use cpp_db.Network.Server.{
  Ending, Sending, accepts, delivered, dies, exits, refused, signalled, serve_request, Connection,
  Reply, Served, answer_request, answer_sql, is_invalid, run_server, serve, serve_all,
  serve_connection, c_string, execute_parsed, fill_line, recv_line,
}
use cpp_db.Execution.Executor.{execute, new_executor, shutdown}
use cpp_db.Execution.Executor.Invariant.{execute-IsReady}
use cpp_db.Network.Protocol.{is_exit_request, parse_request_sql}
use cpp_db.Parser.Statements.{parse}

-- The parser names a database where one is opened or dropped.
IsFormed-NamesDatabase : (stmt : SqlStatement) → IsFormed stmt → NamesDatabase stmt
IsFormed-NamesDatabase (SqlStatement.drop_database name) h = h
IsFormed-NamesDatabase (SqlStatement.use_database name) h = h
IsFormed-NamesDatabase _ h = tt

length-c_string : (cs : Bytes) → length (c_string cs) ≤ length cs
unfolding c_string
length-c_string [] = omega arith
length-c_string (c ∷ cs) = let h = length-c_string cs in ground arith

-- A line that is read takes its bytes from the stream.
length-fill_line :
    (room : ℕ) (stream : Bytes)
    → length (fill_line room stream).0 + length (fill_line room stream).1 ≤ length stream
unfolding fill_line
length-fill_line zero stream = omega arith
length-fill_line (suc room) [] = omega arith
length-fill_line (suc room) (c ∷ cs) =
    let h = length-fill_line room cs in let k = length-fill_line (suc room) cs in ground arith

length-fill_line_room : (room : ℕ) (stream : Bytes) → length (fill_line room stream).0 ≤ room
unfolding fill_line
length-fill_line_room zero stream = omega arith
length-fill_line_room (suc room) [] = omega arith
length-fill_line_room (suc room) (c ∷ cs) =
    let h = length-fill_line_room room cs in
    let k = length-fill_line_room (suc room) cs in ground arith

length-line :
    (room : ℕ) (stream : Bytes)
    → is_empty (c_string (fill_line room stream).0) ≡ false
    → length (fill_line room stream).1 < length stream
length-line room stream e =
    let h = length-fill_line room stream in
    let k = length-c_string (fill_line room stream).0 in
    let n = nonempty (c_string (fill_line room stream).0) e in omega arith
  where
    nonempty : (cs : Bytes) → is_empty cs ≡ false → 0 < length cs
    nonempty [] e = cc
    nonempty (c ∷ cs) e = omega arith

-- A line that is not empty shortens the stream.
pub length-recv_line :
    (stream : Bytes)
    → is_empty (recv_line stream).0 ≡ false
    → length (recv_line stream).1 < length stream
unfolding recv_line
length-recv_line stream e = length-line 8191 stream e

-- A line has at most the bytes that the buffer holds besides its final NUL, and with what is left to read
-- it has no more bytes than the stream, whatever is received.
pub recv_line-bounds :
    (stream : Bytes)
    → (length (recv_line stream).0 ≤ 8191)
      × (length (recv_line stream).0 + length (recv_line stream).1 ≤ length stream)
unfolding recv_line
recv_line-bounds stream =
    let room = length-fill_line_room 8191 stream in
    let read = length-fill_line 8191 stream in
    let text = length-c_string (fill_line 8191 stream).0 in (omega arith, omega arith)

pub Ending-cases : (e : Ending) → (e ≡ accepts) ⊎ (e ≡ exits) ⊎ (e ≡ dies)
Ending-cases accepts = inl refl
Ending-cases exits = inr (inl refl)
Ending-cases dies = inr (inr refl)

module _ (fs : FileSystem) where
  abbrev pub Ready : Executor fs.Disk → Type 0
  Ready x = IsReady WellFormed x

  execute_parsed-Ready :
      (x : Executor fs.Disk) (stmt : SqlStatement)
      → Ready x
      → IsFormed stmt
      → Returns (execute_parsed fs x stmt) (λ r. Ready r.executor)
  unfolding execute_parsed
  execute_parsed-Ready x stmt ready f = elim (Bool-cases (is_invalid stmt)) [
    | inl e ↦ rw (execute_parsed, e) ready
    | inr e ↦
        (elim (execute fs x stmt)
            as (λ o.
              execute fs x stmt ≡ o
              → Returns o (λ r. Ready r.0)
              → Returns (execute_parsed fs x stmt) (λ r. Ready r.executor)) [
                | none ↦ λ u h. absurd h
                | some (y, result) ↦ λ u h. rw (execute_parsed, e, u) h
              ])
          refl (execute-IsReady fs x ready stmt (IsFormed-NamesDatabase stmt f))
  ]

  answer_sql-Ready :
      (x : Executor fs.Disk) (sql : Bytes)
      → Ready x
      → Returns (answer_sql fs x sql) (λ r. Ready r.executor)
  unfolding answer_sql
  answer_sql-Ready x sql ready = elim (Bool-cases (is_empty sql)) [
    | inl e ↦ rw (answer_sql, e) ready
    | inr e ↦
        (elim (parse sql)
            as (λ o.
              parse sql ≡ o
              → Returns o IsFormed
              → Returns (answer_sql fs x sql) (λ r. Ready r.executor)) [
                | none ↦ λ u h. absurd h
                | some stmt ↦ λ u h. rw (answer_sql, e, u) (execute_parsed-Ready x stmt ready h)
              ])
          refl (parse-IsFormed sql)
  ]

  -- Every request, whatever its bytes are, is answered without a fault, and leaves the open database
  -- valid.
  pub answer_request-Ready :
      (x : Executor fs.Disk) (request : Bytes)
      → Ready x
      → Returns (answer_request fs x request) (λ r. Ready r.executor)
  unfolding answer_request
  answer_request-Ready x request ready = elim (Bool-cases (is_exit_request request)) [
    | inl e ↦ rw (answer_request, e) ready
    | inr e ↦ rw (answer_request, e) (answer_sql-Ready x (parse_request_sql request) ready)
  ]

  serve_request-Ready :
      (next : Executor fs.Disk → Option (Served fs)) (x : Executor fs.Disk) (sending : Sending)
      (request : Bytes)
      → Ready x
      → (is_empty request ≡ false
          → (y : Executor fs.Disk) → Ready y
          → Returns (next y) (λ s. Ready s.executor))
      → Returns (serve_request fs next x sending request) (λ s. Ready s.executor)
  unfolding serve_request
  serve_request-Ready next x sending request ready k = elim (Bool-cases (is_empty request)) [
    | inl e ↦ rw (serve_request, e) ready
    | inr e ↦
        (elim (answer_request fs x request)
            as (λ o.
              answer_request fs x request ≡ o
              → Returns o (λ r. Ready r.executor)
              → Returns (serve_request fs next x sending request) (λ s. Ready s.executor)) [
                | none ↦ λ u h. absurd h
                | some r ↦ λ u h. rw (serve_request, e, u) (sent r sending h (k e r.executor h))
              ])
          refl (answer_request-Ready x request ready)
  ]
    where
      served :
          (r : Reply fs) (o : Option (Served fs))
          → Returns o (λ s. Ready s.executor)
          → Returns {A = Served fs}
              (elim o [
                | none ↦ none
                | some s ↦ some (record s { answers = r.response ∷ s.answers })
              ])
              (λ s. Ready s.executor)
      served r none h = h
      served r (some s) h = h

      sent :
          (r : Reply fs) (how : Sending)
          → Ready r.executor
          → Returns (next r.executor) (λ s. Ready s.executor)
          → Returns {A = Served fs}
              (elim how [
                | signalled ↦ some (record { executor = r.executor; answers = []; ending = dies })
                | refused ↦ some (record {
                  executor = r.executor;
                  answers = [];
                  ending = if r.running then accepts else exits;
                })
                | delivered ↦ elim r.running [
                  | false ↦
                      some (record {
                        executor = r.executor;
                        answers = r.response ∷ [];
                        ending = exits;
                      })
                  | true ↦ elim (next r.executor) [
                    | none ↦ none
                    | some s ↦ some (record s { answers = r.response ∷ s.answers })
                  ]
                ]
              ])
              (λ s. Ready s.executor)
      sent r signalled h k = h
      sent r refused h k = h
      sent r delivered h k = elim (Bool-cases r.running) [
        | inl g ↦ rw g (served r (next r.executor) k)
        | inr g ↦ rw g h
      ]

  serve-Ready :
      (fuel : ℕ) (x : Executor fs.Disk) (writes : ℕ → Sending) (n : ℕ) (stream : Bytes)
      → length stream < fuel
      → Ready x
      → Returns (serve fs fuel x writes n stream) (λ s. Ready s.executor)
  unfolding serve
  serve-Ready zero x writes n stream lt ready = absurd (omega arith)
  serve-Ready (suc fuel) x writes n stream lt ready =
      serve_request-Ready (λ y. serve fs fuel y writes (suc n) (recv_line stream).1) x (writes n)
        (recv_line stream).0 ready
        (λ e y h.
          serve-Ready fuel y writes (suc n) (recv_line stream).1
            (let k = length-recv_line stream e in omega arith) h)

  pub serve_connection-Ready :
      (x : Executor fs.Disk) (c : Connection)
      → Ready x
      → Returns (serve_connection fs x c) (λ s. Ready s.executor)
  unfolding serve_connection
  serve_connection-Ready x c ready =
      serve-Ready (length c.stream + 1) x c.writes 0 c.stream (omega arith) ready

  serve_all-Ready :
      (x : Executor fs.Disk) (cs : List Connection)
      → Ready x
      → Returns (serve_all fs x cs) (λ r. Ready r.0)
  unfolding serve_all serve_connection
  serve_all-Ready x [] ready = ready
  serve_all-Ready x (c ∷ cs) ready =
      (elim (serve_connection fs x c)
          as (λ o.
            serve_connection fs x c ≡ o
            → Returns o (λ s. Ready s.executor)
            → Returns (serve_all fs x (c ∷ cs)) (λ r. Ready r.0)) [
              | none ↦ λ u h. absurd h
              | some s ↦ λ u h. elim (Ending-cases s.ending) [
                | inl e ↦ rw (serve_all, u, e) (serve_all-Ready s.executor cs h)
                | inr (inl e) ↦ rw (serve_all, u, e) h
                | inr (inr e) ↦ rw (serve_all, u, e) h
              ]
            ])
        refl (serve_connection-Ready x c ready)

  -- For every sequence of connections on which the clients send any bytes, and in which the writing of any answer may succeed, fail, or kill the server by SIGPIPE, each loop over a
  -- connection ends, no statement accesses a cell outside a vector or follows a null pointer, and the state
  -- that is left, at the end or when the server is killed, has a valid database open, if any.
  pub run_server-Ready :
      (disk : fs.Disk) (cs : List Connection) → Returns (run_server fs disk cs) (λ r. Ready r.0)
  unfolding run_server new_executor shutdown
  run_server-Ready disk cs =
      (elim (serve_all fs (new_executor fs (codes "data") disk) cs)
          as (λ o.
            serve_all fs (new_executor fs (codes "data") disk) cs ≡ o
            → Returns o (λ r. Ready r.0)
            → Returns (run_server fs disk cs) (λ r. Ready r.0)) [
              | none ↦ λ u h. absurd h
              | some (x, accepts) ↦ λ u h. rw (run_server, u) h
              | some (x, exits) ↦ λ u h. rw (run_server, u) h
              | some (x, dies) ↦ λ u h. rw (run_server, u) h
            ])
        refl (serve_all-Ready (new_executor fs (codes "data") disk) cs refl)
