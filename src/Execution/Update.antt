-- ===== src/Execution/Update.antt =====
-- `exec_update` of src/execution/executor.cpp.
pub mod Rows
pub mod Keys
pub mod Effect
use cpp_db.Base.{
  ℕ, zero, suc, ◌+◌, Bool, true, false, List, [], ◌∷◌, ◌++◌, Option, none, some, ℤ, pos, negsuc,
  ◌==ℤ◌, Bytes, codes, if◌then◌else◌, get_elem?, set, length, ltb, print_nat, snprintf,
}
use cpp_db.Storage.Value.{Value, Row}
use cpp_db.Storage.Table.{Table, primary_key_index}
use cpp_db.Storage.Index
use cpp_db.Storage.Index.{Entries}
use cpp_db.Parser.Ast.{UpdateStmt}
use cpp_db.Execution.State.{
  Executor, ExecResult, result_ok, Check, done, fail, fault, ◌>>=◌, must, conclude, require_db,
  Slot, require_table, require_column, where_column, modify,
}
use cpp_db.Execution.Where.{literal_value, passes}

-- What the loop changes: the rows, the index and the count.
pub record Pass : Type 0 where
  pub rows : List Row
  pub index : Entries
  pub updated : ℕ

-- The new entry of the index, if the column is the primary key and the value an int. The old entry
-- stays.
unfoldable pub reindex : Bool → Value → ℕ → Entries → Check Entries
reindex true (Value.int key) i es = must (Index.insert es key i)
reindex _ _ i es = done es

-- The write to one cell, which faults outside the row.
abbrev pub set_cell : Row → ℕ → Value → Check Row
set_cell row col v = if ltb col (length row) then done (set row col v) else fault

-- The body of the loop on row `i`.
unfoldable pub update_row_at : (Row → Bool) → ℕ → Bool → Value → ℕ → Pass → Check Pass
unfolding reindex
update_row_at test set_col is_key v i p = do
  row ← must (get_elem? p.rows i)
  elim (test row) [
    | false ↦ done p
    | true ↦ set_cell row set_col v >>= λ new_row. reindex is_key v i p.index >>= λ es.
        done (record { rows = set p.rows i new_row; index = es; updated = p.updated + 1 })
  ]

-- `for (i = ...; i < row_count; ++i)`, in the `n` rounds left.
unfoldable pub update_loop : (Row → Bool) → ℕ → Bool → Value → ℕ → ℕ → Pass → Check Pass
unfolding update_row_at
update_loop test set_col is_key v zero i p = done p
update_loop test set_col is_key v (suc n) i p =
    update_row_at test set_col is_key v i p >>= λ p'. update_loop test set_col is_key v n (suc i) p'

-- The work of the handler on its table: the columns, the loop, and the message.
unfoldable pub update_in : UpdateStmt → Slot → Check (Slot × Bytes)
unfolding require_column where_column literal_value passes primary_key_index update_loop print_nat
    snprintf
update_in stmt s = do
  set_col ← require_column s.table stmt.table_name stmt.set_column
  where_col ← where_column s.table stmt.table_name stmt.has_where stmt.where_clause
  let new_val = literal_value stmt.set_is_int stmt.set_value
  p ←
      update_loop (passes stmt.has_where stmt.where_clause where_col) set_col
        (pos set_col ==ℤ primary_key_index s.table) new_val (length s.table.rows) 0
        (record { rows = s.table.rows; index = s.index; updated = 0 })
  done (
    record { at = s.at; table = record s.table { rows = p.rows }; index = p.index },
    snprintf 256 (print_nat p.updated ++ codes " row(s) updated"),
  )

unfoldable pub exec_update :
    {Disk : Type 0} → Executor Disk → UpdateStmt → Option (Executor Disk × ExecResult)
unfolding modify update_in
exec_update x stmt = modify x stmt.table_name (update_in stmt)
