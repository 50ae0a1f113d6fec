-- ===== src/Execution/Insert.antt =====
-- `exec_insert` of src/execution/executor.cpp.
pub mod Rows
pub mod Keys
pub mod Effect
use cpp_db.Base.{
  ℕ, zero, suc, Bool, true, false, List, [], ◌∷◌, ◌++◌, Option, none, some, ℤ, pos, negsuc, Bytes,
  codes, ◌==◌, if◌then◌else◌, get_elem?, length, map, print_nat, print_int, snprintf,
}
use cpp_db.Storage.Value.{Value, Row}
use cpp_db.Storage.Table.{Table, primary_key_index, insert_row}
use cpp_db.Storage.Index
use cpp_db.Storage.Index.{Entries}
use cpp_db.Parser.Ast.{Literal, InsertStmt}
use cpp_db.Execution.State.{
  Executor, ExecResult, result_ok, Check, done, fail, fault, ◌>>=◌, must, conclude, require_db,
  Slot, require_table, modify,
}
use cpp_db.Execution.Where.{literal_value}

-- The row that the loop over the values builds.
unfoldable pub build_row : List Literal → Row
unfolding literal_value
build_row values = map (λ (l : Literal). literal_value l.is_int l.text) values

-- The error for a wrong number of values.
unfoldable pub check_count : Table → List Literal → Check Unit
unfolding print_nat snprintf
check_count t values =
    if length values == length t.columns
    then done tt
    else fail (
        snprintf 512 (
          codes "Column count mismatch: expected "
          ++ (print_nat (length t.columns) ++ (codes ", got " ++ print_nat (length values)))))

-- `pk_val`, after the check that an int key is not in the index yet: another value counts as 0 and is
-- not checked.
unfoldable pub check_key : Value → Entries → Check ℤ
unfolding print_int snprintf
check_key (Value.int key) es = must (Index.find es key) >>= elim [
  | none ↦ done key
  | some existing ↦ fail (snprintf 256 (codes "Duplicate primary key: " ++ print_int key))
]
check_key _ es = done (pos 0)

-- The index with the row's key, if the table has a primary key.
unfoldable pub index_row : ℤ → Row → ℕ → Entries → Check Entries
unfolding check_key
index_row (negsuc n) row row_idx es = done es
index_row (pos pk) row row_idx es = do
  v ← must (get_elem? row pk)
  key ← check_key v es
  must (Index.insert es key row_idx)

-- The work of the handler on its table.
unfoldable pub insert_into : InsertStmt → Slot → Check (Slot × Bytes)
unfolding check_count build_row primary_key_index index_row insert_row
insert_into stmt s = do
  _ ← check_count s.table stmt.values
  let row = build_row stmt.values
  es ← index_row (primary_key_index s.table) row (length s.table.rows) s.index
  done (record { at = s.at; table = insert_row s.table row; index = es }, codes "1 row inserted")

unfoldable pub exec_insert :
    {Disk : Type 0} → Executor Disk → InsertStmt → Option (Executor Disk × ExecResult)
unfolding modify insert_into
exec_insert x stmt = modify x stmt.table_name (insert_into stmt)
