-- ===== src/Cli/Display/Errors.antt =====
-- src/cli/client_main.cpp: an error is shown with its message.
use cpp_db.Base.{All, Bool, Bytes, Option, ap, codes, none, some, ◌++◌, ◌≡◌, ◌≢◌, ◌∙◌}
use mathlib.Core.List.{append_assoc}
use cpp_db.Storage.Table.{Table}
use cpp_db.Execution.State.{Status}
use cpp_db.Network.Protocol.{
  before_quote, serialize_error, serialize_exec_result, serialize_status, json_append_kv,
}
use cpp_db.Network.Protocol.Requests.{before_quote-append}
use cpp_db.Cli.Display.{display_error, display_response, text_behind}

-- What is printed for the message that is found.
message_line : Option Bytes → Bytes
message_line none = codes "ERROR: (unknown)\n"
message_line (some msg) = codes "ERROR: " ++ (msg ++ codes "\n")

-- An error that the executor returns is shown to the user with its message, if the message has no quote:
-- the client finds it in the JSON that the server builds.
pub display_response-serialize_exec_result :
    (t : Table) (message : Bytes) (has_table : Bool)
    → All (λ c. c ≢ b'"') message
    → display_response (
        serialize_exec_result t
          (record { status = Status.error; message = message; has_table = has_table }))
      ≡ some (codes "ERROR: " ++ (message ++ codes "\n"))
unfolding display_response display_error text_behind serialize_exec_result serialize_error
    serialize_status json_append_kv message_line
display_response-serialize_exec_result t message has_table h =
    ap (λ text. some (message_line (before_quote text)))
      (append_assoc message (codes "\"") (codes "}"))
    ∙ ap (λ o. some (message_line o)) (before_quote-append message (codes "}") h)
