-- ===== src/Parser/Interface/Readback.antt =====
-- src/parser/parser_c.cpp: a caller of the C interface reads the statement that was parsed.
use cpp_db.Base.{
  ◌>>=◌, ap₂, ◌∙◌, Bool, Bytes, List, [], ap, false, length, refl, some, suc, true, ◌∷◌, ◌≡◌,
}
use cpp_db.Parser.Ast.{ColumnDef, Literal, SqlStatement, WhereClause, stmt_kind_name}
use cpp_db.Parser.Statements.{parse}
use cpp_db.Parser.Statements.Bounds.{parse-Returns}
use cpp_db.Parser.Interface.{
  int_flag, Heap, MiniDbStmt, copy_columns, copy_values, flatten, flatten_columns, flatten_insert,
  minidb_parse, minidb_stmt_error, new_stmt,
}
use cpp_db.Parser.Interface.Accessors.{
  write_where, minidb_get_create_table, minidb_get_database_name, minidb_get_delete,
  minidb_get_insert, minidb_get_select, minidb_get_table_name, minidb_get_update, minidb_stmt_kind,
  minidb_stmt_kind_name,
}
use cpp_db.Parser.Interface.Caller.{
  blank, clause_read, flag_of, read_columns, read_stmt, read_values, read_where, visible,
}

flag_read : (b : Bool) → flag_of (int_flag b) ≡ b
flag_read true = refl
flag_read false = refl

where_read :
    (has_where : Bool) (w : WhereClause)
    → read_where (write_where has_where w (some blank)) ≡ clause_read has_where w
where_read true w = ap (λ b. record w { is_int_literal = b }) (flag_read w.is_int_literal)
where_read false w = refl

read_columns-copy_columns :
    (cs : List ColumnDef) (heap : Heap) → read_columns (length cs) (copy_columns cs heap).0 ≡ cs
unfolding copy_columns
read_columns-copy_columns [] heap = refl
read_columns-copy_columns (c ∷ cs) heap =
    ap₂ (λ b ds. record c { is_primary = b } ∷ ds) (flag_read c.is_primary)
      (read_columns-copy_columns cs
        (record { next = suc (suc heap.next); live = suc heap.next ∷ heap.next ∷ heap.live }))

read_values-copy_values :
    (vs : List Literal) (heap : Heap)
    → read_values (length vs) (copy_values vs heap).0.0 (copy_values vs heap).0.1 ≡ vs
unfolding copy_values
read_values-copy_values [] heap = refl
read_values-copy_values (v ∷ vs) heap =
    ap₂ (λ b ws. record v { is_int = b } ∷ ws) (flag_read v.is_int)
      (read_values-copy_values vs (record { next = suc heap.next; live = heap.next ∷ heap.live }))

read_stmt-insert :
    (n : Bytes) (vs : List Literal) (heap : Heap)
    → let ast = SqlStatement.insert (record { table_name = n; values = vs }) in
      read_stmt (flatten_insert vs (new_stmt ast) heap).0 (flatten_insert vs (new_stmt ast) heap).1
      ≡ some ast
unfolding flatten_insert minidb_stmt_kind minidb_get_insert
read_stmt-insert n [] heap = refl
read_stmt-insert n (v ∷ vs) heap =
    ap (λ ws. some (SqlStatement.insert (record { table_name = n; values = ws })))
      (read_values-copy_values (v ∷ vs)
        (record { next = suc (suc heap.next); live = suc heap.next ∷ heap.next ∷ heap.live }))

read_stmt-flatten :
    (ast : SqlStatement) (heap : Heap)
    → read_stmt (flatten ast (new_stmt ast) heap).0 (flatten ast (new_stmt ast) heap).1
      ≡ some (visible ast)
unfolding flatten flatten_columns flatten_insert minidb_stmt_kind minidb_get_database_name
    minidb_get_create_table minidb_get_table_name minidb_get_select minidb_get_delete
    minidb_get_insert minidb_get_update minidb_stmt_error
read_stmt-flatten (SqlStatement.create_database n) heap = refl
read_stmt-flatten (SqlStatement.drop_database n) heap = refl
read_stmt-flatten (SqlStatement.use_database n) heap = refl
read_stmt-flatten (SqlStatement.create_table n []) heap = refl
read_stmt-flatten (SqlStatement.create_table n (c ∷ cs)) heap =
    ap (λ ds. some (SqlStatement.create_table n ds))
      (read_columns-copy_columns (c ∷ cs)
        (record { next = suc heap.next; live = heap.next ∷ heap.live }))
read_stmt-flatten (SqlStatement.drop_table n) heap = refl
read_stmt-flatten (SqlStatement.select s) heap =
    ap₂ (λ b w. some (SqlStatement.select (record s { has_where = b; where_clause = w })))
      (flag_read s.has_where) (where_read s.has_where s.where_clause)
read_stmt-flatten (SqlStatement.delete s) heap =
    ap₂ (λ b w. some (SqlStatement.delete (record s { has_where = b; where_clause = w })))
      (flag_read s.has_where) (where_read s.has_where s.where_clause)
read_stmt-flatten (SqlStatement.insert s) heap = read_stmt-insert s.table_name s.values heap
read_stmt-flatten (SqlStatement.update s) heap =
    ap₂
      (λ b w. some (
        SqlStatement.update (record s {
          set_is_int = flag_of (int_flag s.set_is_int);
          has_where = b;
          where_clause = w;
        })))
      (flag_read s.has_where) (where_read s.has_where s.where_clause)
    ∙ ap
        (λ b. some (
          SqlStatement.update
            (record s { set_is_int = b; where_clause = clause_read s.has_where s.where_clause })))
        (flag_read s.set_is_int)
read_stmt-flatten (SqlStatement.invalid m) heap = refl

-- Whatever the text is, a caller of the C interface that asks for the kind of the statement and calls
-- the accessor of this kind reads the statement that `parse` gives, or its error: every name, column,
-- value and flag, and the clause if there is one. The caller's variable for the clause is left alone
-- if there is none.
pub minidb_parse-read_stmt :
    (sql : Bytes) (heap : Heap)
    → (minidb_parse sql heap >>= λ r. read_stmt r.0.content r.1)
      ≡ (parse sql >>= λ ast. some (visible ast))
unfolding minidb_parse
minidb_parse-read_stmt sql heap =
    let (ast, e) = parse-Returns sql in
    rw (minidb_parse, e)
      (read_stmt-flatten ast (record { next = suc heap.next; live = heap.next ∷ heap.live }))

-- The C interface gives the kind the name that the parser gives it, for every statement.
minidb_stmt_kind_name-minidb_stmt_kind :
    (stmt : MiniDbStmt) → minidb_stmt_kind_name (minidb_stmt_kind stmt) ≡ stmt_kind_name stmt.ast
unfolding minidb_stmt_kind_name minidb_stmt_kind stmt_kind_name
minidb_stmt_kind_name-minidb_stmt_kind stmt =
    elim stmt.ast
      as (λ ast.
        minidb_stmt_kind_name (minidb_stmt_kind (record stmt { ast = ast })) ≡ stmt_kind_name ast) [
          | SqlStatement.create_database _ ↦ refl
          | SqlStatement.drop_database _ ↦ refl
          | SqlStatement.use_database _ ↦ refl
          | SqlStatement.create_table _ _ ↦ refl
          | SqlStatement.drop_table _ ↦ refl
          | SqlStatement.select _ ↦ refl
          | SqlStatement.delete _ ↦ refl
          | SqlStatement.insert _ ↦ refl
          | SqlStatement.update _ ↦ refl
          | SqlStatement.invalid _ ↦ refl
        ]
