-- ===== src/Network/Protocol.antt =====
-- src/network/protocol.cpp: the JSON texts, built and searched by hand.
pub mod Requests
pub mod Replies
use cpp_db.Base.{
  Option, [], codes, drop, false, if◌then◌else◌, is_empty, length, ltb, map, none, not, print_nat,
  some, str_eq, true, ℕ, ◌&&◌, ◌++◌, ◌==◌, ◌||◌, ◌∷◌, Bool, List, Bytes, print_int, snprintf,
}
use cpp_db.Storage.Value.{Value, Row}
use cpp_db.Storage.Table.{Column, ColumnType, Table}
use cpp_db.Execution.State.{Status, ExecResult}

-- The test of the builders: the text is not empty, and its last byte is neither `{` nor `,`.
unfoldable pub needs_comma : Bytes → Bool
needs_comma [] = false
needs_comma (c ∷ []) = not (c == b'{') && not (c == b',')
needs_comma (c ∷ d ∷ cs) = needs_comma (d ∷ cs)

-- `append_comma_if_needed`, which the builders also write out.
unfoldable pub append_comma_if_needed : Bytes → Bytes
unfolding needs_comma
append_comma_if_needed out = if needs_comma out then out ++ codes "," else out

-- `json_append_kv`
unfoldable pub json_append_kv : Bytes → Bytes → Bytes → Bytes
unfolding append_comma_if_needed
json_append_kv out key value =
    append_comma_if_needed out ++ (codes "\"" ++ (key ++ (codes "\":\"" ++ (value ++ codes "\""))))

-- `json_append_kv_int`
unfoldable pub json_append_kv_int : Bytes → Bytes → ℕ → Bytes
unfolding append_comma_if_needed print_nat
json_append_kv_int out key value =
    append_comma_if_needed out ++ (codes "\"" ++ (key ++ (codes "\":" ++ print_nat value)))

-- `serialize_status`
unfoldable pub serialize_status : Bytes → Bytes → Bytes
unfolding json_append_kv
serialize_status status message =
    json_append_kv (json_append_kv (codes "{") (codes "status") status) (codes "message") message
    ++ codes "}"

-- `serialize_error`
unfoldable pub serialize_error : Bytes → Bytes
unfolding serialize_status
serialize_error message = serialize_status (codes "error") message

-- `append_char(out, ',')` between the elements of a list.
unfoldable pub joined : List Bytes → Bytes
joined [] = []
joined (t ∷ []) = t
joined (t ∷ u ∷ ts) = t ++ (codes "," ++ joined (u ∷ ts))

-- The text of one column. The `+ 1` that is to skip a brace skips a quote.
abbrev pub json_column : Column → Bytes
json_column c =
    drop 1 (json_append_kv [] (codes "name") c.name)
    ++ json_append_kv [] (codes "type")
        (elim c.type [ ColumnType.int ↦ codes "int" | ColumnType.string ↦ codes "string" ])

-- The text of one cell.
abbrev pub json_value : Value → Bytes
json_value (Value.int n) = print_int n
json_value (Value.string s) = codes "\"" ++ (s ++ codes "\"")
json_value _ = codes "null"

abbrev pub json_row : Row → Bytes
json_row row = codes "[" ++ (joined (map json_value row) ++ codes "]")

-- The lists of the columns and of the rows of a result table.
unfoldable pub serialize_lists : Table → Bytes
unfolding joined json_append_kv print_int
serialize_lists t =
    codes ",\"columns\":["
    ++ (joined (map json_column t.columns)
        ++ (codes "],\"rows\":[" ++ (joined (map json_row t.rows) ++ codes "]")))

-- The part of an answer for a result table, with the comma before it.
unfoldable pub serialize_table : Bytes → Table → Bytes
unfolding json_append_kv_int serialize_lists
serialize_table out t =
    json_append_kv_int
      (json_append_kv_int (out ++ codes ",") (codes "column_count") (length t.columns))
      (codes "row_count") (length t.rows)
    ++ serialize_lists t

-- `serialize_exec_result`, of a result with the global result table.
unfoldable pub serialize_exec_result : Table → ExecResult → Bytes
unfolding json_append_kv serialize_error serialize_table
serialize_exec_result t result = elim result.status [
  | Status.error ↦ serialize_error result.message
  | Status.ok ↦
      let out =
        json_append_kv (json_append_kv (codes "{") (codes "status") (codes "ok")) (codes "message")
          result.message in
      (if result.has_table && ltb 0 (length t.columns) then serialize_table out t else out)
      ++ codes "}"
]

-- The text behind a prefix.
unfoldable pub strip_prefix : Bytes → Bytes → Option Bytes
strip_prefix [] text = some text
strip_prefix (p ∷ ps) [] = none
strip_prefix (p ∷ ps) (c ∷ cs) = let rest = strip_prefix ps cs in if p == c then rest else none

-- `strstr`: the text behind the first place where the pattern stands.
unfoldable pub strstr : Bytes → Bytes → Option Bytes
unfolding strip_prefix
strstr pattern [] = strip_prefix pattern []
strstr pattern (c ∷ cs) = elim (strip_prefix pattern (c ∷ cs)) [
  | some rest ↦ some rest
  | none ↦ strstr pattern cs
]

-- `strchr(pos, '"')`: the text before the first quote.
unfoldable pub before_quote : Bytes → Option Bytes
before_quote [] = none
before_quote (c ∷ cs) = elim (c == b'"') [
  | true ↦ some []
  | false ↦ elim (before_quote cs) [ none ↦ none | some text ↦ some (c ∷ text) ]
]

-- The two searches of `json_get_string`, the second behind the first match.
abbrev pub quoted : Option Bytes → Bytes
quoted none = []
quoted (some text) = elim (before_quote text) [ none ↦ [] | some value ↦ value ]

-- `json_get_string`
unfoldable pub json_get_string : Bytes → Bytes → Bytes
unfolding strstr before_quote snprintf
json_get_string json key =
    quoted (strstr (snprintf 256 (codes "\"" ++ (key ++ codes "\":\""))) json)

-- `parse_request_sql`
unfoldable pub parse_request_sql : Bytes → Bytes
unfolding json_get_string str_eq
parse_request_sql json =
    let type = json_get_string json (codes "type") in
    if is_empty type || not (str_eq type (codes "sql"))
    then []
    else json_get_string json (codes "sql")

-- `is_exit_request`
unfoldable pub is_exit_request : Bytes → Bool
unfolding json_get_string str_eq
is_exit_request json = str_eq (json_get_string json (codes "type")) (codes "exit")
