-- ===== src/Execution/Executor/Invariant.antt =====
-- The invariants of the executor (src/execution/executor.cpp): the well-formedness that every
-- statement keeps, and the unique keys that all but an UPDATE of a primary key keep.
use cpp_db.Execution.Executor.Keeps.{Keeps, execute-Keeps, Modified-IsReady, NamesDatabase}
use cpp_db.Storage.Database.Slots.{Aligned-mono}
use cpp_db.Base.{Bytes, List, Returns, [], none, some, ◌≡◌}
use cpp_db.Storage.Table.{Column, Table}
use cpp_db.Storage.Database.{Database}
use cpp_db.Execution.Modify.{DbReady, IsReady}
use cpp_db.Execution.Delete.Effect.{Deletes}
use cpp_db.Storage.Index.{Entries}
use cpp_db.Execution.State.{Executor}
use cpp_db.Storage.Disk.{FileSystem}
use cpp_db.Execution.Insert.Effect.{Inserts}
use cpp_db.Execution.Keys.{Keyed}
use cpp_db.Execution.Update.Keys.{SparesKey, update_in-Keyed}
use cpp_db.Parser.Ast.{SqlStatement}
use cpp_db.Execution.Update.Effect.{Updates}
use cpp_db.Execution.Outcome.{WellFormed}
use cpp_db.Storage.Database.Tables.{created}
use cpp_db.Execution.Delete.{delete_from, exec_delete}
use cpp_db.Execution.Delete.Keys.{delete_from-Keyed}
use cpp_db.Execution.Executor.Outcomes.{
  exec_delete-Outcome, exec_insert-Outcome, exec_update-Outcome,
}
use cpp_db.Execution.Insert.{exec_insert, insert_into}
use cpp_db.Execution.Update.{exec_update, update_in}
use cpp_db.Execution.Executor.{execute}
use cpp_db.Execution.Insert.Keys.{insert_into-Keyed}
use cpp_db.Execution.Modify.Effects.{modify-Safe}
use cpp_db.Storage.Database.View.{table_of}

created-WellFormed :
    (name dir : Bytes) (columns : List Column) → WellFormed (created name dir columns) []
created-WellFormed name dir columns = record { sorted = tt; widths = tt }

module _ (fs : FileSystem) (x : Executor fs.Disk) (ready : IsReady WellFormed x) where
  rows_keep : (stmt : SqlStatement) → Keeps WellFormed created-WellFormed fs x ready stmt
  rows_keep (SqlStatement.delete stmt) =
      Modified-IsReady WellFormed created-WellFormed fs x ready (Deletes stmt) stmt.table_name _
        (exec_delete-Outcome x ready stmt)
  rows_keep (SqlStatement.insert stmt) =
      Modified-IsReady WellFormed created-WellFormed fs x ready (Inserts stmt) stmt.table_name _
        (exec_insert-Outcome x ready stmt)
  rows_keep (SqlStatement.update stmt) =
      Modified-IsReady WellFormed created-WellFormed fs x ready (Updates stmt) stmt.table_name _
        (exec_update-Outcome x ready stmt)
  rows_keep _ = tt

  -- On an executor whose open database, if any, is valid, every statement that names a database where
  -- it opens or drops one is executed without a fault (a null pointer, or a read or a write outside a vector), and
  -- the open database, if any, is valid again: its vectors are aligned, its table names distinct, every
  -- index is sorted, and every row has a value for each column.
  pub execute-IsReady :
      (stmt : SqlStatement)
      → NamesDatabase stmt
      → Returns (execute fs x stmt) (λ r. IsReady WellFormed r.0)
  execute-IsReady stmt n =
      execute-Keeps WellFormed created-WellFormed fs x ready stmt n ready (rows_keep stmt)

created-Keyed : (name dir : Bytes) (columns : List Column) → Keyed (created name dir columns) []
created-Keyed name dir columns = record {
  well_formed = created-WellFormed name dir columns;
  indexed = tt;
  unique = tt;
}

Keyed-IsReady : {Disk : Type 0} (x : Executor Disk) → IsReady Keyed x → IsReady WellFormed x
Keyed-IsReady x ready =
    (elim x.current_db
        as (λ o. DbReady Keyed x.current_db_name o → DbReady WellFormed x.current_db_name o) [
          | none ↦ λ n. n
          | some db ↦ λ (n, v). (
            n,
            record {
              aligned =
                  Aligned-mono Keyed WellFormed (λ t e k. k.well_formed) db.table_names db.tables
                    db.indexes v.aligned;
              distinct = v.distinct;
            },
          )
        ])
      ready

-- An UPDATE does not set the primary key of the table that it names.
abbrev pub SparesKeys : {Disk : Type 0} → Executor Disk → SqlStatement → Type 0
SparesKeys x (SqlStatement.update stmt) =
    (db : Database) (t : Table) (e : Entries)
    → x.current_db ≡ some db
    → table_of db stmt.table_name ≡ some (t, e)
    → SparesKey stmt t
SparesKeys x _ = Unit

module _ (fs : FileSystem) (x : Executor fs.Disk) (ready : IsReady Keyed x) where
  keys_keep : (stmt : SqlStatement) → SparesKeys x stmt → Keeps Keyed created-Keyed fs x ready stmt
  unfolding exec_delete exec_insert exec_update
  keys_keep (SqlStatement.delete stmt) s =
      Modified-IsReady Keyed created-Keyed fs x ready (Deletes stmt) stmt.table_name _ (
        modify-Safe Keyed (Deletes stmt) x stmt.table_name (delete_from stmt) ready
          (λ db s u f v. delete_from-Keyed stmt s v))
  keys_keep (SqlStatement.insert stmt) s =
      Modified-IsReady Keyed created-Keyed fs x ready (Inserts stmt) stmt.table_name _ (
        modify-Safe Keyed (Inserts stmt) x stmt.table_name (insert_into stmt) ready
          (λ db s u f v. insert_into-Keyed stmt s v))
  keys_keep (SqlStatement.update stmt) spares =
      Modified-IsReady Keyed created-Keyed fs x ready (Updates stmt) stmt.table_name _ (
        modify-Safe Keyed (Updates stmt) x stmt.table_name (update_in stmt) ready
          (λ db s u f v. update_in-Keyed stmt s v (spares db s.table s.index u f)))
  keys_keep _ s = tt

  -- On an executor whose open database, if any, is valid with unique keys (the index of each table
  -- holds the int key of every row, and no two rows share one), every statement that names a database
  -- where it opens or drops one, and is no UPDATE of the primary key of its table, is executed without a
  -- fault and leaves a valid database with unique keys again.
  pub execute-Keyed :
      (stmt : SqlStatement)
      → NamesDatabase stmt
      → SparesKeys x stmt
      → Returns (execute fs x stmt) (λ r. IsReady Keyed r.0)
  execute-Keyed stmt n s =
      execute-Keeps Keyed created-Keyed fs x ready stmt n (Keyed-IsReady x ready) (keys_keep stmt s)
