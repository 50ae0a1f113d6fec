-- ===== src/Execution/Delete.antt =====
-- `exec_delete` of src/execution/executor.cpp.
pub mod Rows
pub mod Keys
pub mod Effect
use cpp_db.Base.{
  ℕ, zero, suc, ◌+◌, Bool, true, false, List, [], ◌∷◌, ◌++◌, Option, none, some, ℤ, pos, negsuc,
  Bytes, codes, if◌then◌else◌, get_elem?, length, print_nat, snprintf,
}
use cpp_db.Core.Shift.{erase}
use cpp_db.Storage.Value.{Value, Row}
use cpp_db.Storage.Table.{Table, primary_key_index, remove_row}
use cpp_db.Storage.Index
use cpp_db.Storage.Index.{Entries}
use cpp_db.Parser.Ast.{DeleteStmt}
use cpp_db.Execution.State.{
  Executor, ExecResult, result_ok, Check, done, fail, fault, ◌>>=◌, must, conclude, require_db,
  Slot, require_table, where_column, modify,
}
use cpp_db.Execution.Where.{passes}

-- What the loop changes: the table, its index and the count.
pub record Sweep : Type 0 where
  pub table : Table
  pub index : Entries
  pub deleted : ℕ

-- The removal of a value's key from the index, which happens for ints only.
unfoldable pub remove_key : Value → Entries → Check Entries
remove_key (Value.int key) es = do (es', _) ← must (Index.remove es key); done es'
remove_key _ es = done es

-- The index without the row's primary key, if the table has one.
unfoldable pub unindex : ℤ → Row → Entries → Check Entries
unfolding remove_key
unindex (negsuc n) row es = done es
unindex (pos pk) row es = do v ← must (get_elem? row pk); remove_key v es

-- The body of the loop on row `i`.
unfoldable pub delete_row : (Row → Bool) → ℤ → ℕ → Sweep → Check Sweep
unfolding unindex remove_row
delete_row test pk_col i w = do
  row ← must (get_elem? w.table.rows i)
  elim (test row) [
    | false ↦ done w
    | true ↦ unindex pk_col row w.index >>= λ es. must (remove_row w.table i) >>= λ t.
        done (record { table = t; index = es; deleted = w.deleted + 1 })
  ]

-- `for (i = n - 1; i >= 0; --i)`, for the `n` rows left to visit.
unfoldable pub delete_loop : (Row → Bool) → ℤ → ℕ → Sweep → Check Sweep
unfolding delete_row
delete_loop test pk_col zero w = done w
delete_loop test pk_col (suc i) w =
    delete_row test pk_col i w >>= λ w'. delete_loop test pk_col i w'

-- The work of the handler on its table: the WHERE column, the loop, and the message.
unfoldable pub delete_from : DeleteStmt → Slot → Check (Slot × Bytes)
unfolding where_column delete_loop passes primary_key_index print_nat snprintf
delete_from stmt s = do
  where_col ← where_column s.table stmt.table_name stmt.has_where stmt.where_clause
  w ←
      delete_loop (passes stmt.has_where stmt.where_clause where_col) (primary_key_index s.table)
        (length s.table.rows) (record { table = s.table; index = s.index; deleted = 0 })
  done (
    record { at = s.at; table = w.table; index = w.index },
    snprintf 256 (print_nat w.deleted ++ codes " row(s) deleted"),
  )

unfoldable pub exec_delete :
    {Disk : Type 0} → Executor Disk → DeleteStmt → Option (Executor Disk × ExecResult)
unfolding modify delete_from
exec_delete x stmt = modify x stmt.table_name (delete_from stmt)
