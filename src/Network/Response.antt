-- ===== src/Network/Response.antt =====
-- `serialize_response` of src/network/protocol.cpp: the answer that describes a parsed statement. The
-- server does not send it; a test does.
pub mod Kinds
use cpp_db.Base.{Bool, Bytes, List, [], codes, drop, if◌then◌else◌, length, map, true, ℕ, ◌++◌, ◌∷◌}
use cpp_db.Parser.Ast.{
  ColumnDef, Literal, SqlStatement, WhereClause, stmt_kind_name, InsertStmt, UpdateStmt,
}
use cpp_db.Network.Protocol.{
  append_comma_if_needed, joined, json_append_kv, json_append_kv_int, serialize_error,
}

-- `append_char` and `append_str`
abbrev pub append_str : Bytes → Bytes → Bytes
append_str out s = out ++ s

-- `json_append_open` and `json_append_close`
abbrev pub json_append_open : Bytes → Bytes
json_append_open out = append_str out (codes "{")

abbrev pub json_append_close : Bytes → Bytes
json_append_close out = append_str out (codes "}")

-- `json_append_kv_bool`
unfoldable pub json_append_kv_bool : Bytes → Bytes → Bool → Bytes
unfolding append_comma_if_needed
json_append_kv_bool out key value =
    append_comma_if_needed out
    ++ (codes "\"" ++ (key ++ (codes "\":" ++ (if value then codes "true" else codes "false"))))

-- `serialize_where`. Each member is built in an empty text: the first loses its quote as if it were a
-- brace, and no comma comes before the others.
unfoldable pub serialize_where : Bytes → WhereClause → Bytes
unfolding json_append_kv json_append_kv_bool
serialize_where out w =
    append_str
      (append_str
        (append_str
          (append_str
            (append_str (append_str out (codes "\"where\":{"))
              (drop 1 (json_append_kv [] (codes "column") w.column)))
            (json_append_kv [] (codes "op") w.op))
          (json_append_kv [] (codes "value") w.const_value))
        (json_append_kv_bool [] (codes "is_int") w.is_int_literal))
      (codes "}")

-- The flag for a clause, with the clause if there is one.
unfoldable pub append_where : Bytes → Bool → WhereClause → Bytes
unfolding json_append_kv_bool serialize_where
append_where out has_where w =
    let flagged = json_append_kv_bool out (codes "has_where") has_where in
    if has_where then serialize_where (append_str flagged (codes ",")) w else flagged

-- The text of a column definition, and of a value.
unfoldable pub json_column_def : ColumnDef → Bytes
unfolding json_append_kv json_append_kv_bool
json_column_def c =
    append_str
      (append_str
        (append_str (append_str (codes "{") (drop 1 (json_append_kv [] (codes "name") c.name)))
          (json_append_kv [] (codes "type") c.type))
        (json_append_kv_bool [] (codes "primary") c.is_primary))
      (codes "}")

unfoldable pub json_literal : Literal → Bytes
unfolding json_append_kv json_append_kv_bool
json_literal v =
    append_str
      (append_str (append_str (codes "{") (drop 1 (json_append_kv [] (codes "value") v.text)))
        (json_append_kv_bool [] (codes "is_int") v.is_int))
      (codes "}")

-- A list behind a key, with the comma before it.
unfoldable pub append_list : Bytes → Bytes → List Bytes → Bytes
unfolding joined
append_list out key items =
    append_str (append_str (append_str out (codes ",")) (codes "\"" ++ (key ++ codes "\":[")))
      (joined items ++ codes "]")

-- The members for the kind of the statement.
unfoldable pub append_members : Bytes → SqlStatement → Bytes
unfolding json_append_kv json_append_kv_int json_append_kv_bool append_where json_column_def
    json_literal append_list
append_members out (SqlStatement.create_database name) = json_append_kv out (codes "name") name
append_members out (SqlStatement.drop_database name) = json_append_kv out (codes "name") name
append_members out (SqlStatement.use_database name) = json_append_kv out (codes "name") name
append_members out (SqlStatement.create_table name columns) =
    append_list
      (json_append_kv_int (json_append_kv out (codes "table") name) (codes "column_count")
        (length columns))
      (codes "columns") (map json_column_def columns)
append_members out (SqlStatement.drop_table name) = json_append_kv out (codes "table") name
append_members out (SqlStatement.select s) =
    append_where
      (json_append_kv (json_append_kv out (codes "column") s.column_name) (codes "table")
        s.table_name)
      s.has_where s.where_clause
append_members out (SqlStatement.delete s) =
    append_where (json_append_kv out (codes "table") s.table_name) s.has_where s.where_clause
append_members out (SqlStatement.insert s) =
    append_list
      (json_append_kv_int (json_append_kv out (codes "table") s.table_name) (codes "value_count")
        (length s.values))
      (codes "values") (map json_literal s.values)
append_members out (SqlStatement.update s) =
    append_where
      (json_append_kv_bool
        (json_append_kv
          (json_append_kv (json_append_kv out (codes "table") s.table_name) (codes "set_column")
            s.set_column)
          (codes "set_value") s.set_value)
        (codes "set_is_int") s.set_is_int)
      s.has_where s.where_clause
append_members out (SqlStatement.invalid msg) = out

-- The answer up to the kind.
unfoldable pub response_head : SqlStatement → Bytes
unfolding json_append_kv stmt_kind_name
response_head stmt =
    json_append_kv (json_append_kv (json_append_open []) (codes "status") (codes "ok"))
      (codes "kind") (stmt_kind_name stmt)

-- `serialize_response`
unfoldable pub serialize_response : SqlStatement → Bytes
unfolding serialize_error append_members response_head
serialize_response (SqlStatement.invalid msg) = serialize_error msg
serialize_response stmt = json_append_close (append_members (response_head stmt) stmt)
