-- ===== src/Execution/State.antt =====
-- src/execution/executor.hpp: the state of the engine, its results, and how a handler ends. The guards
-- at the head of the handlers of executor.cpp are here too.
use cpp_db.Base.{
  ℕ, Bool, true, false, ◌++◌, Option, none, some, ℤ, pos, negsuc, Bytes, codes, is_empty, String,
  if◌then◌else◌, snprintf, get_elem?, set,
}
use cpp_db.Storage.Index.{Entries}
use cpp_db.Storage.Table.{Table, find_column}
use cpp_db.Storage.Database.{Database, find_slot}
use cpp_db.Parser.Ast.{WhereClause}

-- `ExecResult`. A result's table pointer is null or points to `g_result_table`.
pub data Status : Type 0 where
  ok error : Status

pub record ExecResult : Type 0 where
  pub status : Status
  pub message : Bytes
  pub has_table : Bool

abbrev pub result_ok : Bytes → ExecResult
result_ok msg = record { status = ok; message = msg; has_table = false }

abbrev pub result_error : Bytes → ExecResult
result_error msg = record { status = error; message = msg; has_table = false }

-- The executor, the global `g_result_table`, and the disk.
pub record Executor (Disk : Type 0) : Type 0 where
  pub data_root : Bytes
  pub current_db_name : Bytes
  pub current_db : Option Database
  pub result_table : Table
  pub disk : Disk

-- A computation of a handler: a value, an error result that the handler returns at once, or a fault
-- (a null pointer, or a read outside a vector).
pub data Check (A : Type 0) : Type 0 where
  done : A → Check A
  fail : Bytes → Check A
  fault : Check A

infixl 5 ◌>>=◌
abbrev pub ◌>>=◌ : {A B : Type 0} → Check A → (A → Check B) → Check B
done a >>= f = f a
fail msg >>= f = fail msg
fault >>= f = fault

-- A value that may be missing only by a fault.
abbrev pub must : {A : Type 0} → Option A → Check A
must none = fault
must (some a) = done a

-- The early returns of a handler happen before it changes anything.
abbrev pub conclude :
    {Disk : Type 0}
    → Executor Disk
    → Check (Executor Disk × ExecResult)
    → Option (Executor Disk × ExecResult)
conclude x (done r) = some r
conclude x (fail msg) = some (x, result_error msg)
conclude x fault = none

-- The text printed to a buffer of 512 bytes, around one name or two.
abbrev pub about : String → Bytes → String → Bytes
about before name after = snprintf 512 (codes before ++ (name ++ codes after))

abbrev pub column_missing : Bytes → Bytes → Bytes
column_missing column table =
    snprintf 512
      (codes "Column '" ++ (column ++ (codes "' not found in table '" ++ (table ++ codes "'"))))

-- `require_db`, and the null check behind it.
unfoldable pub require_db : {Disk : Type 0} → Executor Disk → Check Database
require_db x =
    if is_empty x.current_db_name
    then fail (codes "No database selected. Use 'use <dbname>' first.")
    else elim x.current_db [ none ↦ fail (codes "No database selected") | some db ↦ done db ]

-- What `get_table` and `get_index` give for one name: a table and its index, at their position.
pub record Slot : Type 0 where
  pub at : ℕ
  pub table : Table
  pub index : Entries

-- `get_table`, with the error for a missing table, and `get_index`, which finds the same position.
unfoldable pub require_table : Database → Bytes → Check Slot
unfolding find_slot snprintf
require_table db name = elim (find_slot db name) [
  | none ↦ fail (about "Table '" name "' does not exist")
  | some i ↦ do
    t ← must (get_elem? db.tables i)
    es ← must (get_elem? db.indexes i)
    done (record { at = i; table = t; index = es })
]

-- `find_column`, with the error for a missing column.
unfoldable pub require_column : Table → Bytes → Bytes → Check ℕ
unfolding find_column snprintf
require_column t table_name column = elim (find_column t column) [
  | pos i ↦ done i
  | negsuc n ↦ fail (column_missing column table_name)
]

-- The position of the column of the WHERE clause, or -1 without a clause.
unfoldable pub where_column : Table → Bytes → Bool → WhereClause → Check ℤ
unfolding require_column
where_column t table_name false w = done (negsuc 0)
where_column t table_name true w = do i ← require_column t table_name w.column; done (pos i)

-- The database with a table and its index written back to their position.
abbrev pub put_slot : Database → Slot → Database
put_slot db s = record db {
  tables = set db.tables s.at s.table;
  indexes = set db.indexes s.at s.index;
}

-- A handler that changes one table: its guards, the work on the table and its index, and the result.
unfoldable pub modify :
    {Disk : Type 0}
    → Executor Disk
    → Bytes
    → (Slot → Check (Slot × Bytes))
    → Option (Executor Disk × ExecResult)
unfolding require_db require_table
modify x name work = conclude x (do
  db ← require_db x
  s ← require_table db name
  (s', msg) ← work s
  done (record x { current_db = some (put_slot db s') }, result_ok msg))
