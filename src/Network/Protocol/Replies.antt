-- ===== src/Network/Protocol/Replies.antt =====
-- src/network/protocol.cpp: a client can read the status and the message of an answer.
use cpp_db.Base.{
  ap, All, refl, sym, ◌∙◌, ◌≢◌, Bool-cases, [], codes, inl, inr, length, ltb, ℕ, ◌&&◌, ◌++◌, ◌≡◌,
  Bool, Bytes,
}
use cpp_db.Execution.State.{Status, ExecResult}
use cpp_db.Storage.Table.{Table}
use cpp_db.Network.Protocol.{
  serialize_lists, serialize_status, append_comma_if_needed, json_append_kv, json_append_kv_int,
  needs_comma, serialize_error, serialize_exec_result, serialize_table, json_get_string,
}
use mathlib.Core.List.{append-nil, append_assoc}
use cpp_db.Network.Protocol.Requests.{first_value}

-- The word for a status.
abbrev pub status_word : Status → Bytes
status_word Status.ok = codes "ok"
status_word Status.error = codes "error"

-- The text begins with the prefix.
unfoldable pub Extends : Bytes → Bytes → Type 0
Extends p text = (more : Bytes) × (text ≡ p ++ more)

pub Extends-append : (p text rest : Bytes) → Extends p text → Extends p (text ++ rest)
unfolding Extends
Extends-append p text rest (more, e) = (more ++ rest, rw e (append_assoc p more rest))

pub Extends-append_comma_if_needed :
    (p text : Bytes) → Extends p text → Extends p (append_comma_if_needed text)
unfolding append_comma_if_needed
Extends-append_comma_if_needed p text x = elim (Bool-cases (needs_comma text)) [
  | inl e ↦ rw e (Extends-append p text (codes ",") x)
  | inr e ↦ rw e x
]

pub Extends-json_append_kv_int :
    (p text key : Bytes) (n : ℕ) → Extends p text → Extends p (json_append_kv_int text key n)
unfolding json_append_kv_int
Extends-json_append_kv_int p text key n x =
    Extends-append p (append_comma_if_needed text) _ (Extends-append_comma_if_needed p text x)

Extends-serialize_table :
    (p text : Bytes) (t : Table) → Extends p text → Extends p (serialize_table text t)
unfolding serialize_table
Extends-serialize_table p text t x = Extends-append p _ (serialize_lists t) (
    Extends-json_append_kv_int p _ (codes "row_count") (length t.rows) (
      Extends-json_append_kv_int p _ (codes "column_count") (length t.columns)
        (Extends-append p text (codes ",") x)))

-- An answer up to the quote behind its message.
abbrev reply_head : Status → Bytes → Bytes
reply_head Status.ok message = codes "{\"status\":\"ok\",\"message\":\"" ++ message ++ codes "\""
reply_head Status.error message =
    codes "{\"status\":\"error\",\"message\":\"" ++ message ++ codes "\""

-- An answer without a table and its last brace.
abbrev reply_base : Bytes → Bytes
reply_base message =
    json_append_kv (json_append_kv (codes "{") (codes "status") (codes "ok")) (codes "message")
      message

reply_base-Extends : (message : Bytes) → Extends (reply_head Status.ok message) (reply_base message)
unfolding json_append_kv Extends
reply_base-Extends message = ([], sym (append-nil (reply_head Status.ok message)))

reply_begins :
    (t : Table) (status : Status) (message : Bytes) (has_table : Bool)
    → Extends (reply_head status message) (
        serialize_exec_result t
          (record { status = status; message = message; has_table = has_table }))
unfolding serialize_exec_result serialize_error serialize_status json_append_kv Extends
reply_begins t Status.error message has_table = (codes "}", refl)
reply_begins t Status.ok message has_table =
    let head : Bytes = reply_head Status.ok message in
    let base : Extends head (reply_base message) = reply_base-Extends message in
    elim (Bool-cases (has_table && ltb 0 (length t.columns))) [
      | inl e ↦
          rw (serialize_exec_result, e)
            (Extends-append head (serialize_table (reply_base message) t) (codes "}")
              (Extends-serialize_table head (reply_base message) t base))
      | inr e ↦
          rw (serialize_exec_result, e) (Extends-append head (reply_base message) (codes "}") base)
    ]

status_read :
    (status : Status) (message more : Bytes)
    → json_get_string (reply_head status message ++ more) (codes "status") ≡ status_word status
unfolding json_get_string
status_read Status.ok message more = refl
status_read Status.error message more = refl

message_read :
    (status : Status) (message more : Bytes)
    → All (λ c. c ≢ b'"') message
    → json_get_string (reply_head status message ++ more) (codes "message") ≡ message
unfolding json_get_string
message_read Status.ok message more h =
    rw (append_assoc message (codes "\"") more) (first_value message more h)
message_read Status.error message more h =
    rw (append_assoc message (codes "\"") more) (first_value message more h)

-- The client reads the status of an answer back, whatever the message and the table are, and the message
-- too if it has no quote.
pub serialize_exec_result_lem :
    (t : Table) (r : ExecResult)
    → (json_get_string (serialize_exec_result t r) (codes "status") ≡ status_word r.status)
      × (All (λ c. c ≢ b'"') r.message
          → json_get_string (serialize_exec_result t r) (codes "message") ≡ r.message)
unfolding Extends
serialize_exec_result_lem t r =
    let (more, e) = reply_begins t r.status r.message r.has_table in
    (
      ap (λ text. json_get_string text (codes "status")) e ∙ status_read r.status r.message more,
      λ h.
          ap (λ text. json_get_string text (codes "message")) e
          ∙ message_read r.status r.message more h,
    )
