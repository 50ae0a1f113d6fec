-- ===== src/Tests/NetworkTests.antt =====
-- Tests of src/network: requests, answers and connections.
use cpp_db.Storage.Value.{compare}
use cpp_db.Storage.Table.{new_table}
use cpp_db.Base.{◌&&◌, Bool, List, length, not, ◌+◌, ◌==◌, ◌≤◌, atoi}
use cpp_db.Network.Protocol.Replies.{serialize_exec_result_lem}
use cpp_db.Base.{
  ◌>>=◌, All, Returns, [], arith, codes, refl, some, true, ◌++◌, ◌∷◌, ◌≡◌, ◌≢◌, Bytes,
}
use cpp_db.Network.Server.{
  accepts, delivered, dies, refused, serve_all, signalled, answer_sql, recv_line, run_server,
  serve_connection, Connection,
}
use cpp_db.Network.Server.Lines.{
  IsSendable, answer_all, lines, printable-InLine, serve_connection-lines,
}
use cpp_db.Network.Server.Invariant.{recv_line-bounds, Ready, run_server-Ready}
use cpp_db.Storage.Value.{Value}
use cpp_db.Network.Client.{exit_text, request_text}
use cpp_db.Tests.Fixtures.{delete_1, in_town, log_disk, name_column, people}
use cpp_db.Network.Protocol.{
  is_exit_request, json_get_string, parse_request_sql, serialize_exec_result,
}
use cpp_db.Execution.State.{Executor, result_ok}
use cpp_db.Network.Server.Exit.{at_exit, exit_connection, run_server-exit}
use cpp_db.Network.Session.{send_all, send_all-answer_all, wire}
use cpp_db.Execution.Executor.{new_executor}
use cpp_db.Parser.Ast.{SqlStatement, stmt_kind_name}
use cpp_db.Network.Response.{serialize_response}
use cpp_db.Network.Response.Kinds.{serialize_response-stmt_kind_name}

-- Whether a text has no quote.
no_quote : Bytes → Bool
no_quote [] = true
no_quote (c ∷ cs) = not (c == b'"') && no_quote cs

no_quote_sound : (cs : Bytes) → no_quote cs ≡ true → All (λ c. c ≢ b'"') cs
unfolding no_quote
no_quote_sound [] h = tt
no_quote_sound (c ∷ cs) h = let p : c ≢ b'"' = ground arith in (p, no_quote_sound cs (ground arith))

-- Statements that a client can send.
abbrev use_db : Bytes
use_db = codes "use db"

use_db-IsSendable : IsSendable use_db
unfolding no_quote
use_db-IsSendable = record {
  present = cc;
  short = omega arith;
  in_line = printable-InLine use_db refl;
  unquoted = no_quote_sound use_db refl;
}

abbrev ask_name : Bytes
ask_name = codes "select name from people where id = 1"

ask_name-IsSendable : IsSendable ask_name
unfolding no_quote
ask_name-IsSendable = record {
  present = cc;
  short = omega arith;
  in_line = printable-InLine ask_name refl;
  unquoted = no_quote_sound ask_name refl;
}

-- A client that asks for a name, and whose second request is no JSON.
abbrev chat : Connection
chat = record {
  stream = request_text ask_name ++ 10 ∷ (codes "hello" ++ 10 ∷ []);
  writes = λ _. delivered;
}

-- The state behind the query, and its answer. The columns are not the JSON that they are meant to be.
abbrev asked : Executor (List Bytes)
asked = record in_town {
  result_table = record {
    name = codes "__result__";
    data_path = codes "__result__.dat";
    columns = name_column ∷ [];
    rows = (Value.string (codes "ann") ∷ []) ∷ [];
  };
}

abbrev named : Bytes
named =
    codes "{\"status\":\"ok\",\"message\":\"Query OK\",\"column_count\":1,\"row_count\":1,"
    ++ codes "\"columns\":[name\":\"name\"\"type\":\"string\"],\"rows\":[[\"ann\"]]}"

chat_runs :
    serve_connection log_disk in_town chat
    ≡ some (record {
      executor = asked;
      answers =
          named
          ∷ codes "{\"status\":\"error\",\"message\":\"Invalid request: missing 'sql' field\"}"
          ∷ [];
      ending = accepts;
    })
unfolding serve_connection request_text compare atoi new_table
chat_runs = refl

ask_name_runs :
    answer_all log_disk in_town (ask_name ∷ [])
    ≡ some (record { executor = asked; answers = named ∷ []; ending = accepts })
unfolding answer_sql compare atoi new_table
ask_name_runs = refl

send_all-answer_all_example :
    send_all log_disk (codes "localhost") 3307 (ask_name ∷ []) (wire log_disk in_town)
    ≡ (named ∷ [], wire log_disk asked)
send_all-answer_all_example =
    send_all-answer_all log_disk in_town (codes "localhost") 3307 (ask_name ∷ [])
      (record { executor = asked; answers = named ∷ []; ending = accepts })
      (ask_name-IsSendable, tt) ask_name_runs
      (record { in_line = printable-InLine named refl; short = omega arith }, tt)

run_server-exit_example :
    Returns (serve_all log_disk (new_executor log_disk (codes "data") []) (chat ∷ [])) (λ r.
      run_server log_disk [] (chat ∷ exit_connection [] (λ _. refused) ∷ [])
      ≡ some (at_exit log_disk r))
run_server-exit_example = run_server-exit log_disk [] (chat ∷ []) [] [] (λ _. refused) (λ e. cc)

-- An answer whose writing raises the signal kills the server before the request to exit that follows.
killed_runs :
    (run_server log_disk []
        (record chat { writes = λ _. signalled } ∷ exit_connection [] (λ _. delivered) ∷ [])
      >>= λ r. some r.1)
    ≡ some dies
unfolding run_server serve_all serve_connection request_text compare atoi new_table
killed_runs = refl

recv_line-bounds_example :
    (length (recv_line chat.stream).0 ≤ 8191)
    × (length (recv_line chat.stream).0 + length (recv_line chat.stream).1 ≤ length chat.stream)
recv_line-bounds_example = recv_line-bounds chat.stream

-- A string of a statement is lost on the way: the text ends at its quote.
quote_runs :
    parse_request_sql (request_text (codes "insert into people values (2, \"bob\")"))
    ≡ codes "insert into people values (2, "
unfolding parse_request_sql request_text
quote_runs = refl

exit_runs : is_exit_request exit_text ≡ true
unfolding is_exit_request
exit_runs = refl

run_server-Ready_example : Returns (run_server log_disk [] (chat ∷ [])) (λ r. Ready log_disk r.0)
run_server-Ready_example = run_server-Ready log_disk [] (chat ∷ [])

serve_connection-lines_example :
    serve_connection log_disk in_town
      (record { stream = lines (use_db ∷ []); writes = λ _. delivered })
    ≡ answer_all log_disk in_town (use_db ∷ [])
serve_connection-lines_example =
    serve_connection-lines log_disk in_town (use_db ∷ []) (use_db-IsSendable, tt)

serialize_exec_result_lem_example :
    (json_get_string (serialize_exec_result people (result_ok (codes "done"))) (codes "status")
      ≡ codes "ok")
    × (All (λ c. c ≢ b'"') (codes "done")
        → json_get_string
            (serialize_exec_result people (result_ok (codes "done")))
            (codes "message")
          ≡ codes "done")
serialize_exec_result_lem_example = serialize_exec_result_lem people (result_ok (codes "done"))

serialize_response_runs :
    serialize_response (SqlStatement.delete delete_1)
    ≡ codes "{\"status\":\"ok\",\"kind\":\"DELETE\",\"table\":\"people\",\"has_where\":true,"
      ++ codes "\"where\":{column\":\"id\"\"op\":\"=\"\"value\":\"1\"\"is_int\":true}}"
unfolding serialize_response
serialize_response_runs = refl

serialize_response-stmt_kind_name_example :
    (json_get_string (serialize_response (SqlStatement.delete delete_1)) (codes "status")
      ≡ codes "ok")
    × (json_get_string (serialize_response (SqlStatement.delete delete_1)) (codes "kind")
        ≡ codes "DELETE")
unfolding stmt_kind_name
serialize_response-stmt_kind_name_example =
    serialize_response-stmt_kind_name (SqlStatement.delete delete_1) refl
