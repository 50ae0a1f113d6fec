-- ===== src/Parser/Interface/Caller.antt =====
-- The C interface as a caller in C uses it: one that reads a statement back by the accessors. It is no code
-- of the repository: the theorems on the interface are about what it reads.
use cpp_db.Base.{
  ◌>>=◌, if◌then◌else◌, Bool, Bytes, List, Option, [], false, none, not, some, suc, true, zero, ℕ,
  ◌==◌, ◌∷◌,
}
use cpp_db.Parser.Ast.{
  DeleteStmt, InsertStmt, SelectStmt, UpdateStmt, ColumnDef, Literal, SqlStatement, WhereClause,
}
use cpp_db.Parser.Interface.{
  Block, Heap, MiniDbColumnDef, MiniDbStmt, MiniDbWhereClause, minidb_stmt_error,
}
use cpp_db.Parser.Interface.Accessors.{
  minidb_get_create_table, minidb_get_database_name, minidb_get_delete, minidb_get_insert,
  minidb_get_select, minidb_get_table_name, minidb_get_update, minidb_stmt_kind,
}

-- The value of a variable of the caller.
abbrev pub held : {A : Type 0} → A → Option A → A
held a none = a
held a (some b) = b

abbrev pub flag_of : ℕ → Bool
flag_of n = not (n == 0)

abbrev pub blank_where : WhereClause
blank_where = record { column = []; op = []; const_value = []; is_int_literal = false }

abbrev pub blank : MiniDbWhereClause
blank = record { column = []; op = []; const_value = []; is_int_literal = 0 }

abbrev pub read_where : Option MiniDbWhereClause → WhereClause
read_where none = blank_where
read_where (some w) = record {
  column = w.column;
  op = w.op;
  const_value = w.const_value;
  is_int_literal = flag_of w.is_int_literal;
}

-- The elements of the arrays, by the counts.
abbrev pub read_columns : ℕ → List MiniDbColumnDef → List ColumnDef
read_columns zero cs = []
read_columns (suc n) [] = []
read_columns (suc n) (c ∷ cs) =
    record { name = c.name.content; type = c.type.content; is_primary = flag_of c.is_primary }
    ∷ read_columns n cs

abbrev pub read_values : ℕ → List (Block Bytes) → List ℕ → List Literal
read_values zero vs is = []
read_values (suc n) (v ∷ vs) (i ∷ is) =
    record { text = v.content; is_int = flag_of i } ∷ read_values n vs is
read_values (suc n) _ _ = []

-- What is behind a pointer to an array.
abbrev pub elements : {A : Type 0} → Option (Option (Block (List A))) → List A
elements (some (some b)) = b.content
elements _ = []

abbrev pub read_table :
    Option Bytes × (Option (Option (Block (List MiniDbColumnDef))) × Option ℕ) → SqlStatement
read_table (name, (columns, count)) =
    SqlStatement.create_table (held [] name) (read_columns (held 0 count) (elements columns))

abbrev pub read_database : MiniDbStmt → Bytes
read_database stmt = held [] (minidb_get_database_name stmt (some [])).1

abbrev pub read_select : MiniDbStmt → SelectStmt
read_select stmt =
    let out =
      (minidb_get_select stmt (record {
        column_name = some [];
        table_name = some [];
        has_where = some 0;
        where_clause = some blank;
      })).1 in
    record {
      column_name = held [] out.column_name;
      table_name = held [] out.table_name;
      has_where = flag_of (held 0 out.has_where);
      where_clause = read_where out.where_clause;
    }

abbrev pub read_delete : MiniDbStmt → DeleteStmt
read_delete stmt =
    let out =
      (minidb_get_delete stmt
        (record { table_name = some []; has_where = some 0; where_clause = some blank })).1 in
    record {
      table_name = held [] out.table_name;
      has_where = flag_of (held 0 out.has_where);
      where_clause = read_where out.where_clause;
    }

abbrev pub read_insert : MiniDbStmt → InsertStmt
read_insert stmt =
    let out =
      (minidb_get_insert stmt (record {
        table_name = some [];
        values = some none;
        is_int = some none;
        value_count = some 0;
      })).1 in
    record {
      table_name = held [] out.table_name;
      values = read_values (held 0 out.value_count) (elements out.values) (elements out.is_int);
    }

abbrev pub read_update : MiniDbStmt → UpdateStmt
read_update stmt =
    let out =
      (minidb_get_update stmt (record {
        table_name = some [];
        set_column = some [];
        set_value = some [];
        set_is_int = some 0;
        has_where = some 0;
        where_clause = some blank;
      })).1 in
    record {
      table_name = held [] out.table_name;
      set_column = held [] out.set_column;
      set_value = held [] out.set_value;
      set_is_int = flag_of (held 0 out.set_is_int);
      has_where = flag_of (held 0 out.has_where);
      where_clause = read_where out.where_clause;
    }

-- A caller that asks for the kind and reads what the accessor of the kind returns, with a blank clause
-- in its variable.
abbrev pub read_stmt : MiniDbStmt → Heap → Option SqlStatement
read_stmt stmt heap =
    let kind = minidb_stmt_kind stmt in
    if kind == 0
    then some (SqlStatement.create_database (read_database stmt))
    else if kind == 1
    then some (SqlStatement.drop_database (read_database stmt))
    else if kind == 2
    then some (SqlStatement.use_database (read_database stmt))
    else if kind == 3
    then some (read_table (minidb_get_create_table stmt (some [], (some none, some 0))).1)
    else if kind == 4
    then some (SqlStatement.drop_table (held [] (minidb_get_table_name stmt (some [])).1))
    else if kind == 5
    then some (SqlStatement.select (read_select stmt))
    else if kind == 6
    then some (SqlStatement.delete (read_delete stmt))
    else if kind == 7
    then some (SqlStatement.insert (read_insert stmt))
    else if kind == 8
    then some (SqlStatement.update (read_update stmt))
    else (minidb_stmt_error stmt heap >>= λ r. some (SqlStatement.invalid r.0))

-- A statement as its clause is read: blank where it has none.
abbrev pub clause_read : Bool → WhereClause → WhereClause
clause_read true w = w
clause_read false w = blank_where

abbrev pub visible : SqlStatement → SqlStatement
visible (SqlStatement.select s) =
    SqlStatement.select (record s { where_clause = clause_read s.has_where s.where_clause })
visible (SqlStatement.delete s) =
    SqlStatement.delete (record s { where_clause = clause_read s.has_where s.where_clause })
visible (SqlStatement.update s) =
    SqlStatement.update (record s { where_clause = clause_read s.has_where s.where_clause })
visible stmt = stmt
