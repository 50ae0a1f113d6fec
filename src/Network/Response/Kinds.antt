-- ===== src/Network/Response/Kinds.antt =====
-- src/network/protocol.cpp: the status and the kind of a statement can be read back.
use cpp_db.Base.{
  length, map, refl, subst, sym, false, true, Bool, Bytes, List, [], codes, ◌++◌, ◌≡◌,
}
use cpp_db.Parser.Ast.{SqlStatement, WhereClause, stmt_kind_name}
use cpp_db.Network.Protocol.{append_comma_if_needed, json_append_kv, json_get_string}
use cpp_db.Network.Protocol.Replies.{
  Extends, Extends-append, Extends-append_comma_if_needed, Extends-json_append_kv_int,
}
use cpp_db.Network.Response.{
  json_column_def, json_literal, append_list, append_members, append_where, json_append_kv_bool,
  response_head, serialize_response, serialize_where,
}
use cpp_db.Network.Server.{is_invalid}
use mathlib.Core.List.{append-nil}

Extends-json_append_kv :
    (p text key value : Bytes) → Extends p text → Extends p (json_append_kv text key value)
unfolding json_append_kv
Extends-json_append_kv p text key value x =
    Extends-append p (append_comma_if_needed text) _ (Extends-append_comma_if_needed p text x)

Extends-json_append_kv_bool :
    (p text key : Bytes) (b : Bool) → Extends p text → Extends p (json_append_kv_bool text key b)
unfolding json_append_kv_bool
Extends-json_append_kv_bool p text key b x =
    Extends-append p (append_comma_if_needed text) _ (Extends-append_comma_if_needed p text x)

Extends-serialize_where :
    (p text : Bytes) (w : WhereClause) → Extends p text → Extends p (serialize_where text w)
unfolding serialize_where
Extends-serialize_where p text w x = Extends-append p _ _ (
    Extends-append p _ _ (
      Extends-append p _ _
        (Extends-append p _ _ (Extends-append p _ _ (Extends-append p text _ x)))))

Extends-append_where :
    (p text : Bytes) (b : Bool) (w : WhereClause)
    → Extends p text
    → Extends p (append_where text b w)
unfolding append_where
Extends-append_where p text true w x =
    Extends-serialize_where p _ w
      (Extends-append p _ _ (Extends-json_append_kv_bool p text (codes "has_where") true x))
Extends-append_where p text false w x =
    Extends-json_append_kv_bool p text (codes "has_where") false x

Extends-append_list :
    (p text key : Bytes) (items : List Bytes)
    → Extends p text
    → Extends p (append_list text key items)
unfolding append_list
Extends-append_list p text key items x =
    Extends-append p _ _ (Extends-append p _ _ (Extends-append p text _ x))

Extends-append_members :
    (p text : Bytes) (stmt : SqlStatement) → Extends p text → Extends p (append_members text stmt)
unfolding append_members
Extends-append_members p text (SqlStatement.create_database n) x =
    Extends-json_append_kv p text (codes "name") n x
Extends-append_members p text (SqlStatement.drop_database n) x =
    Extends-json_append_kv p text (codes "name") n x
Extends-append_members p text (SqlStatement.use_database n) x =
    Extends-json_append_kv p text (codes "name") n x
Extends-append_members p text (SqlStatement.create_table n cs) x =
    Extends-append_list p _ (codes "columns") (map json_column_def cs) (
      Extends-json_append_kv_int p _ (codes "column_count") (length cs)
        (Extends-json_append_kv p text (codes "table") n x))
Extends-append_members p text (SqlStatement.drop_table n) x =
    Extends-json_append_kv p text (codes "table") n x
Extends-append_members p text (SqlStatement.select s) x =
    Extends-append_where p _ s.has_where s.where_clause (
      Extends-json_append_kv p _ (codes "table") s.table_name
        (Extends-json_append_kv p text (codes "column") s.column_name x))
Extends-append_members p text (SqlStatement.delete s) x =
    Extends-append_where p _ s.has_where s.where_clause
      (Extends-json_append_kv p text (codes "table") s.table_name x)
Extends-append_members p text (SqlStatement.insert s) x =
    Extends-append_list p _ (codes "values") (map json_literal s.values) (
      Extends-json_append_kv_int p _ (codes "value_count") (length s.values)
        (Extends-json_append_kv p text (codes "table") s.table_name x))
Extends-append_members p text (SqlStatement.update s) x =
    Extends-append_where p _ s.has_where s.where_clause (
      Extends-json_append_kv_bool p _ (codes "set_is_int") s.set_is_int (
        Extends-json_append_kv p _ (codes "set_value") s.set_value (
          Extends-json_append_kv p _ (codes "set_column") s.set_column
            (Extends-json_append_kv p text (codes "table") s.table_name x))))
Extends-append_members p text (SqlStatement.invalid m) x = x

-- The status and the kind that are read from an answer.
abbrev Describes : SqlStatement → Bytes → Type 0
Describes stmt text =
    (json_get_string text (codes "status") ≡ codes "ok")
    × (json_get_string text (codes "kind") ≡ stmt_kind_name stmt)

head-Describes :
    (stmt : SqlStatement) (more : Bytes)
    → is_invalid stmt ≡ false
    → Describes stmt (response_head stmt ++ more)
unfolding response_head json_append_kv json_get_string stmt_kind_name
head-Describes (SqlStatement.create_database n) more h = (refl, refl)
head-Describes (SqlStatement.drop_database n) more h = (refl, refl)
head-Describes (SqlStatement.use_database n) more h = (refl, refl)
head-Describes (SqlStatement.create_table n cs) more h = (refl, refl)
head-Describes (SqlStatement.drop_table n) more h = (refl, refl)
head-Describes (SqlStatement.select s) more h = (refl, refl)
head-Describes (SqlStatement.delete s) more h = (refl, refl)
head-Describes (SqlStatement.insert s) more h = (refl, refl)
head-Describes (SqlStatement.update s) more h = (refl, refl)
head-Describes (SqlStatement.invalid m) more h = cc

Extends-refl : (p : Bytes) → Extends p p
unfolding Extends
Extends-refl p = ([], sym (append-nil p))

response-Extends :
    (stmt : SqlStatement)
    → is_invalid stmt ≡ false
    → Extends (response_head stmt) (serialize_response stmt)
unfolding serialize_response
response-Extends (SqlStatement.invalid m) h = cc
response-Extends stmt h =
    let p = response_head stmt in
    Extends-append p (append_members p stmt) (codes "}")
      (Extends-append_members p p stmt (Extends-refl p))

-- The status of a valid statement and its kind can be read back from the answer that describes it,
-- whatever its names and values are.
pub serialize_response-stmt_kind_name :
    (stmt : SqlStatement)
    → is_invalid stmt ≡ false
    → (json_get_string (serialize_response stmt) (codes "status") ≡ codes "ok")
      × (json_get_string (serialize_response stmt) (codes "kind") ≡ stmt_kind_name stmt)
unfolding Extends
serialize_response-stmt_kind_name stmt h =
    let (more, e) = response-Extends stmt h in
    subst (Describes stmt) (sym e) (head-Describes stmt more h)
