-- ===== src/Parser/Interface/Accessors.antt =====
-- src/parser/parser_c.cpp: the accessors. Each returns 1 and writes to the caller's variables if the
-- statement is of its kind, and else returns 0. A variable is none where the caller passes a null pointer.
use cpp_db.Base.{if◌then◌else◌, ◌==◌, false, Bool, Bytes, List, Option, codes, none, some, true, ℕ}
use cpp_db.Parser.Ast.{SqlStatement, WhereClause}
use cpp_db.Parser.Interface.{Block, MiniDbColumnDef, MiniDbStmt, MiniDbWhereClause, int_flag}

-- `if (out) *out = a`
abbrev pub write_out : {A : Type 0} → A → Option A → Option A
write_out a none = none
write_out a (some _) = some a

-- The clause of a statement, written if it has one.
abbrev pub write_where : Bool → WhereClause → Option MiniDbWhereClause → Option MiniDbWhereClause
write_where false w out = out
write_where true w out =
    write_out
      (record {
        column = w.column;
        op = w.op;
        const_value = w.const_value;
        is_int_literal = int_flag w.is_int_literal;
      })
      out

-- `minidb_stmt_kind`: the number of the kind in both enumerations.
unfoldable pub minidb_stmt_kind : MiniDbStmt → ℕ
minidb_stmt_kind stmt = elim stmt.ast [
  | SqlStatement.create_database _ ↦ 0
  | SqlStatement.drop_database _ ↦ 1
  | SqlStatement.use_database _ ↦ 2
  | SqlStatement.create_table _ _ ↦ 3
  | SqlStatement.drop_table _ ↦ 4
  | SqlStatement.select _ ↦ 5
  | SqlStatement.delete _ ↦ 6
  | SqlStatement.insert _ ↦ 7
  | SqlStatement.update _ ↦ 8
  | SqlStatement.invalid _ ↦ 9
]

-- `minidb_stmt_kind_name`
unfoldable pub minidb_stmt_kind_name : ℕ → Bytes
minidb_stmt_kind_name kind =
    if kind == 0
    then codes "CREATE DATABASE"
    else if kind == 1
    then codes "DROP DATABASE"
    else if kind == 2
    then codes "USE"
    else if kind == 3
    then codes "CREATE TABLE"
    else if kind == 4
    then codes "DROP TABLE"
    else if kind == 5
    then codes "SELECT"
    else if kind == 6
    then codes "DELETE"
    else if kind == 7
    then codes "INSERT"
    else if kind == 8
    then codes "UPDATE"
    else if kind == 9
    then codes "INVALID"
    else codes "UNKNOWN"

-- `minidb_get_database_name`
unfoldable pub minidb_get_database_name : MiniDbStmt → Option Bytes → ℕ × Option Bytes
minidb_get_database_name stmt name = elim stmt.ast [
  | SqlStatement.create_database n ↦ (1, write_out n name)
  | SqlStatement.drop_database n ↦ (1, write_out n name)
  | SqlStatement.use_database n ↦ (1, write_out n name)
  | _ ↦ (0, name)
]

-- `minidb_get_create_table`
unfoldable pub minidb_get_create_table :
    MiniDbStmt
    → Option Bytes × (Option (Option (Block (List MiniDbColumnDef))) × Option ℕ)
    → ℕ × (Option Bytes × (Option (Option (Block (List MiniDbColumnDef))) × Option ℕ))
minidb_get_create_table stmt (table_name, (columns, column_count)) = elim stmt.ast [
  | SqlStatement.create_table n _ ↦ (
    1,
    (
      write_out n table_name,
      (write_out stmt.columns columns, write_out stmt.column_count column_count),
    ),
  )
  | _ ↦ (0, (table_name, (columns, column_count)))
]

-- `minidb_get_table_name`
unfoldable pub minidb_get_table_name : MiniDbStmt → Option Bytes → ℕ × Option Bytes
minidb_get_table_name stmt name = elim stmt.ast [
  | SqlStatement.drop_table n ↦ (1, write_out n name)
  | _ ↦ (0, name)
]

-- The caller's variables for a SELECT.
pub record SelectOut : Type 0 where
  pub column_name : Option Bytes
  pub table_name : Option Bytes
  pub has_where : Option ℕ
  pub where_clause : Option MiniDbWhereClause

-- `minidb_get_select`
unfoldable pub minidb_get_select : MiniDbStmt → SelectOut → ℕ × SelectOut
minidb_get_select stmt out = elim stmt.ast [
  | SqlStatement.select s ↦ (
    1,
    record {
      column_name = write_out s.column_name out.column_name;
      table_name = write_out s.table_name out.table_name;
      has_where = write_out (int_flag s.has_where) out.has_where;
      where_clause = write_where s.has_where s.where_clause out.where_clause;
    },
  )
  | _ ↦ (0, out)
]

-- The caller's variables for a DELETE.
pub record DeleteOut : Type 0 where
  pub table_name : Option Bytes
  pub has_where : Option ℕ
  pub where_clause : Option MiniDbWhereClause

-- `minidb_get_delete`
unfoldable pub minidb_get_delete : MiniDbStmt → DeleteOut → ℕ × DeleteOut
minidb_get_delete stmt out = elim stmt.ast [
  | SqlStatement.delete s ↦ (
    1,
    record {
      table_name = write_out s.table_name out.table_name;
      has_where = write_out (int_flag s.has_where) out.has_where;
      where_clause = write_where s.has_where s.where_clause out.where_clause;
    },
  )
  | _ ↦ (0, out)
]

-- The caller's variables for an INSERT.
pub record InsertOut : Type 0 where
  pub table_name : Option Bytes
  pub values : Option (Option (Block (List (Block Bytes))))
  pub is_int : Option (Option (Block (List ℕ)))
  pub value_count : Option ℕ

-- `minidb_get_insert`
unfoldable pub minidb_get_insert : MiniDbStmt → InsertOut → ℕ × InsertOut
minidb_get_insert stmt out = elim stmt.ast [
  | SqlStatement.insert s ↦ (
    1,
    record {
      table_name = write_out s.table_name out.table_name;
      values = write_out stmt.insert_values out.values;
      is_int = write_out stmt.insert_is_int out.is_int;
      value_count = write_out stmt.value_count out.value_count;
    },
  )
  | _ ↦ (0, out)
]

-- The caller's variables for an UPDATE.
pub record UpdateOut : Type 0 where
  pub table_name : Option Bytes
  pub set_column : Option Bytes
  pub set_value : Option Bytes
  pub set_is_int : Option ℕ
  pub has_where : Option ℕ
  pub where_clause : Option MiniDbWhereClause

-- `minidb_get_update`
unfoldable pub minidb_get_update : MiniDbStmt → UpdateOut → ℕ × UpdateOut
minidb_get_update stmt out = elim stmt.ast [
  | SqlStatement.update s ↦ (
    1,
    record {
      table_name = write_out s.table_name out.table_name;
      set_column = write_out s.set_column out.set_column;
      set_value = write_out s.set_value out.set_value;
      set_is_int = write_out (int_flag s.set_is_int) out.set_is_int;
      has_where = write_out (int_flag s.has_where) out.has_where;
      where_clause = write_where s.has_where s.where_clause out.where_clause;
    },
  )
  | _ ↦ (0, out)
]
