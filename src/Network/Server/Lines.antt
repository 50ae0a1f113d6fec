-- ===== src/Network/Server/Lines.antt =====
-- src/network: the statements that a client sends are answered one by one, in their order.
use std.Path.{fun_ext}
use cpp_db.Base.{
  ap, ◌∙◌, Bool-cases, Option-cases, inl, inr, OnResult, arith, false, is_empty, length-append, ltb,
  refl, suc, zero, ℕ, ◌&&◌, ◌+◌, All, All-append, [], length, none, some, true, ◌++◌, ◌<◌, ◌∷◌, ◌≡◌,
  ◌≢◌, Bytes, List, Bool, Option,
}
use cpp_db.Storage.Disk.{FileSystem}
use cpp_db.Execution.State.{Executor}
use cpp_db.Network.Protocol.Requests.{
  is_exit_request-request_text, parse_request_sql-request_text, InLine, recv_line-append,
  request_head, request_tail, request_text_whole,
}
use cpp_db.Network.Server.{
  accepts, delivered, Reply, is_invalid, serve_request, answer_request, execute_parsed, serve,
  serve_connection, Served, answer_sql, recv_line,
}
use cpp_db.Network.Client.{request_text}
use cpp_db.Parser.Ast.{SqlStatement}
use cpp_db.Execution.Executor.{execute}
use cpp_db.Parser.Statements.{parse}

-- A statement that the client's buffer holds, of bytes that survive the line and the quotes around it.
pub record IsSendable (sql : Bytes) : Type 0 where
  pub present : sql ≢ []
  pub short : length sql < 8168
  pub in_line : All InLine sql
  pub unquoted : All (λ c. c ≢ b'"') sql

-- What a client sends for a list of statements: a line for each.
abbrev pub lines : List Bytes → Bytes
lines [] = []
lines (sql ∷ sqls) = request_text sql ++ 10 ∷ lines sqls

-- Bytes behind the control characters.
abbrev pub printable : Bytes → Bool
printable [] = true
printable (c ∷ cs) = ltb 13 c && printable cs

pub printable-InLine : (cs : Bytes) → printable cs ≡ true → All InLine cs
printable-InLine [] h = tt
printable-InLine (c ∷ cs) h =
    let p : 13 < c = ground arith in
    ((λ e. omega arith, λ e. omega arith, λ e. omega arith), printable-InLine cs (ground arith))

request_text-InLine : (sql : Bytes) → IsSendable sql → All InLine (request_text sql)
request_text-InLine sql s = rw (request_text_whole sql s.short) (
    All-append InLine request_head (sql ++ request_tail) (printable-InLine request_head refl)
      (All-append InLine sql request_tail s.in_line (printable-InLine request_tail refl)))

received :
    (sql rest : Bytes)
    → IsSendable sql
    → recv_line (request_text sql ++ 10 ∷ rest) ≡ (request_text sql, rest)
received sql rest s =
    recv_line-append (request_text sql) rest (request_text-InLine sql s)
      (rw (request_text_whole sql s.short) (omega (arith, length-append sql request_tail, s.short)))

request_present : (sql : Bytes) → IsSendable sql → is_empty (request_text sql) ≡ false
request_present sql s = rw (request_text_whole sql s.short) refl

sql_present : (sql : Bytes) → IsSendable sql → is_empty sql ≡ false
sql_present [] s = absurd (s.present refl)
sql_present (c ∷ cs) s = refl

module _ (fs : FileSystem) where
  -- The statements answered one after the other, without the lines and their JSON.
  abbrev pub answer_all : Executor fs.Disk → List Bytes → Option (Served fs)
  answer_all x [] = some (record { executor = x; answers = []; ending = accepts })
  answer_all x (sql ∷ sqls) = elim (answer_sql fs x sql) [
    | none ↦ none
    | some r ↦ elim (answer_all r.executor sqls) [
      | none ↦ none
      | some s ↦ some (record s { answers = r.response ∷ s.answers })
    ]
  ]

  -- The answer to the request for a statement is the answer to the statement.
  answer_request-request_text :
      (x : Executor fs.Disk) (sql : Bytes)
      → IsSendable sql
      → answer_request fs x (request_text sql) ≡ answer_sql fs x sql
  unfolding answer_request
  answer_request-request_text x sql s =
      rw
        (
          answer_request,
          is_exit_request-request_text sql,
          parse_request_sql-request_text sql s.short s.unquoted,
        )
        refl

  -- No statement stops the server.
  execute_parsed_running :
      (x : Executor fs.Disk) (stmt : SqlStatement)
      → OnResult (execute_parsed fs x stmt) (λ r. r.running ≡ true)
  unfolding execute_parsed
  execute_parsed_running x stmt = elim (Bool-cases (is_invalid stmt)) [
    | inl e ↦ rw (execute_parsed, e) refl
    | inr e ↦ elim (Option-cases (execute fs x stmt)) [
      | inl u ↦ rw (execute_parsed, e, u) tt
      | inr (r, u) ↦ rw (execute_parsed, e, u) refl
    ]
  ]

  answer_sql_running :
      (x : Executor fs.Disk) (sql : Bytes) → OnResult (answer_sql fs x sql) (λ r. r.running ≡ true)
  unfolding answer_sql
  answer_sql_running x sql = elim (Bool-cases (is_empty sql)) [
    | inl e ↦ rw (answer_sql, e) refl
    | inr e ↦ elim (Option-cases (parse sql)) [
      | inl u ↦ rw (answer_sql, e, u) tt
      | inr (stmt, u) ↦ rw (answer_sql, e, u) (execute_parsed_running x stmt)
    ]
  ]

  -- A round with a request that does not stop the server and an answer that can be written.
  serve_request_lem :
      (next : Executor fs.Disk → Option (Served fs)) (x : Executor fs.Disk) (request : Bytes)
      (o : Option (Reply fs))
      → is_empty request ≡ false
      → answer_request fs x request ≡ o
      → OnResult o (λ r. r.running ≡ true)
      → serve_request fs next x delivered request ≡ elim o [
        | none ↦ none
        | some r ↦ elim (next r.executor) [
          | none ↦ none
          | some s ↦ some (record s { answers = r.response ∷ s.answers })
        ]
      ]
  unfolding serve_request
  serve_request_lem next x request none e u g = rw (serve_request, e, u) refl
  serve_request_lem next x request (some r) e u g = rw (serve_request, e, u, g) refl

  serve-lines :
      (fuel : ℕ) (x : Executor fs.Disk) (sqls : List Bytes) (n : ℕ)
      → All IsSendable sqls
      → length (lines sqls) < fuel
      → serve fs fuel x (λ _. delivered) n (lines sqls) ≡ answer_all x sqls
  unfolding serve
  serve-lines zero x sqls n h lt = absurd (omega arith)
  serve-lines (suc fuel) x [] n h lt = refl
  serve-lines (suc fuel) x (sql ∷ sqls) n (s, h) lt =
      ap
        (λ (p : Bytes × Bytes).
          serve_request fs (λ y. serve fs fuel y (λ _. delivered) (suc n) p.1) x delivered p.0)
        (received sql (lines sqls) s)
      ∙ ap (λ next. serve_request fs next x delivered (request_text sql))
          (fun_ext (λ y.
            serve-lines fuel y sqls (suc n) h
              (omega (arith, length-append (request_text sql) (10 ∷ lines sqls)))))
      ∙ serve_request_lem (λ y. answer_all y sqls) x (request_text sql) (answer_sql fs x sql)
          (request_present sql s) (answer_request-request_text x sql s) (answer_sql_running x sql)

  -- A client that sends statements in lines gets the answers to these statements, in their order, and
  -- the state behind them is that of the statements executed one after the other: neither the lines nor
  -- the JSON around a statement changes it, if each fits the buffer and has no quote, line break, carriage
  -- return or NUL, and every answer can be written.
  pub serve_connection-lines :
      (x : Executor fs.Disk) (sqls : List Bytes)
      → All IsSendable sqls
      → serve_connection fs x (record { stream = lines sqls; writes = λ _. delivered })
        ≡ answer_all x sqls
  unfolding serve_connection
  serve_connection-lines x sqls h = serve-lines (length (lines sqls) + 1) x sqls 0 h (omega arith)
