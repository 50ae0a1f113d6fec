-- ===== src/Parser/Ast.antt =====
-- src/parser/ast.hpp and ast.cpp: the statements.
use cpp_db.Base.{Bool, List, Bytes, codes}

pub record ColumnDef : Type 0 where
  pub name : Bytes
  pub type : Bytes
  pub is_primary : Bool

pub record WhereClause : Type 0 where
  pub column : Bytes
  pub op : Bytes
  pub const_value : Bytes
  pub is_int_literal : Bool

-- One element of `InsertStmt::values` with the element of `is_int` at the same place: the code only
-- appends to both together.
pub record Literal : Type 0 where
  pub text : Bytes
  pub is_int : Bool

pub record SelectStmt : Type 0 where
  pub column_name : Bytes
  pub table_name : Bytes
  pub has_where : Bool
  pub where_clause : WhereClause

pub record DeleteStmt : Type 0 where
  pub table_name : Bytes
  pub has_where : Bool
  pub where_clause : WhereClause

pub record InsertStmt : Type 0 where
  pub table_name : Bytes
  pub values : List Literal

pub record UpdateStmt : Type 0 where
  pub table_name : Bytes
  pub set_column : Bytes
  pub set_value : Bytes
  pub set_is_int : Bool
  pub has_where : Bool
  pub where_clause : WhereClause

-- `SQLStatement`: the kind with the one member that is valid for it.
pub data SqlStatement : Type 0 where
  create_database : Bytes → SqlStatement
  drop_database : Bytes → SqlStatement
  use_database : Bytes → SqlStatement
  create_table : Bytes → List ColumnDef → SqlStatement
  drop_table : Bytes → SqlStatement
  select : SelectStmt → SqlStatement
  delete : DeleteStmt → SqlStatement
  insert : InsertStmt → SqlStatement
  update : UpdateStmt → SqlStatement
  invalid : Bytes → SqlStatement

-- `stmt_kind_name`
unfoldable pub stmt_kind_name : SqlStatement → Bytes
stmt_kind_name (create_database _) = codes "CREATE DATABASE"
stmt_kind_name (drop_database _) = codes "DROP DATABASE"
stmt_kind_name (use_database _) = codes "USE"
stmt_kind_name (create_table _ _) = codes "CREATE TABLE"
stmt_kind_name (drop_table _) = codes "DROP TABLE"
stmt_kind_name (select _) = codes "SELECT"
stmt_kind_name (delete _) = codes "DELETE"
stmt_kind_name (insert _) = codes "INSERT"
stmt_kind_name (update _) = codes "UPDATE"
stmt_kind_name (invalid _) = codes "INVALID"
