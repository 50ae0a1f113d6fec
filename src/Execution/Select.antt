-- ===== src/Execution/Select.antt =====
-- `exec_select` of src/execution/executor.cpp.
pub mod Rows
use cpp_db.Base.{
  ℕ, Bool, true, false, List, [], ◌∷◌, Option, none, some, ℤ, pos, negsuc, Bytes, codes, str_eq,
  is_empty, if◌then◌else◌, get_elem?,
}
use mathlib.Core.List.{foldl}
use cpp_db.Storage.Value.{Value, Row}
use cpp_db.Storage.Table.{Column, Table, new_table, add_column, insert_row}
use cpp_db.Parser.Ast.{SelectStmt}
use cpp_db.Execution.State.{
  Executor, ExecResult, result_ok, Check, done, fail, fault, ◌>>=◌, must, conclude, require_db,
  require_table, require_column, where_column,
}
use cpp_db.Execution.Where.{passes}

-- What is selected: all columns, or the one at a position.
pub data Target : Type 0 where
  all : Target
  column : ℕ → Target

-- `select_all` and `target_col`.
unfoldable pub select_target : Table → SelectStmt → Check Target
unfolding str_eq require_column
select_target t stmt =
    if str_eq stmt.column_name (codes "*")
    then done all
    else (do c ← require_column t stmt.table_name stmt.column_name; done (column c))

-- The schema of the result.
unfoldable pub select_columns : Table → Target → Check (List Column)
select_columns t all = done t.columns
select_columns t (column c) = do col ← must (get_elem? t.columns c); done (col ∷ [])

-- The new row.
unfoldable pub project : Target → Row → Check Row
project all row = done row
project (column c) row = do v ← must (get_elem? row c); done (v ∷ [])

-- The loop that filters and projects the rows into the result.
unfoldable pub select_loop : (Row → Bool) → Target → List Row → Table → Check Table
unfolding project insert_row
select_loop test target [] result = done result
select_loop test target (row ∷ rows) result = elim (test row) [
  | true ↦
      project target row >>= λ new_row. select_loop test target rows (insert_row result new_row)
  | false ↦ select_loop test target rows result
]

-- `result = Table("__result__")` with the columns added.
abbrev pub result_schema : List Column → Table
result_schema cs = foldl add_column (new_table (codes "__result__")) cs

unfoldable pub exec_select :
    {Disk : Type 0} → Executor Disk → SelectStmt → Option (Executor Disk × ExecResult)
unfolding require_db require_table select_target where_column select_columns select_loop passes
exec_select x stmt = conclude x (do
  db ← require_db x
  s ← require_table db stmt.table_name
  target ← select_target s.table stmt
  where_col ← where_column s.table stmt.table_name stmt.has_where stmt.where_clause
  columns ← select_columns s.table target
  result ←
      select_loop (passes stmt.has_where stmt.where_clause where_col) target s.table.rows
        (result_schema columns)
  done (
    record x { result_table = result },
    record (result_ok (codes "Query OK")) { has_table = true },
  ))
