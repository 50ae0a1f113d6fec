-- ===== src/Execution/Executor/Outcomes.antt =====
-- DELETE, INSERT and UPDATE (src/execution/executor.cpp) on any statement: no handler faults, and an
-- error changes nothing.
use cpp_db.Base.{Returns, ◌⊎◌}
use cpp_db.Parser.Ast.{DeleteStmt, InsertStmt, UpdateStmt}
use cpp_db.Execution.State.{Executor}
use cpp_db.Execution.Delete.{delete_from, exec_delete}
use cpp_db.Execution.Insert.{insert_into, exec_insert}
use cpp_db.Execution.Update.{update_in, exec_update}
use cpp_db.Execution.Outcome.{WellFormed}
use cpp_db.Execution.Modify.{IsReady, Modified, Refused}
use cpp_db.Execution.Modify.Effects.{modify-Safe}
use cpp_db.Execution.Delete.Effect.{Deletes, delete_from-Safe}
use cpp_db.Execution.Insert.Effect.{Inserts, insert_into-Safe}
use cpp_db.Execution.Update.Effect.{Updates, update_in-Safe}

module _ {Disk : Type 0} (x : Executor Disk) (ready : IsReady WellFormed x) where
  -- On an executor whose open database, if any, is valid, DELETE never faults: it deletes the rows that
  -- match from the named table and changes no other table, or it returns an error and changes nothing.
  pub exec_delete-Outcome :
      (stmt : DeleteStmt)
      → Returns
          (exec_delete x stmt)
          (λ r. Modified WellFormed (Deletes stmt) x stmt.table_name r ⊎ Refused x r)
  unfolding exec_delete
  exec_delete-Outcome stmt =
      modify-Safe WellFormed (Deletes stmt) x stmt.table_name (delete_from stmt) ready
        (λ db s _ _ v. delete_from-Safe stmt s v)

  -- On an executor whose open database, if any, is valid, INSERT never faults: it appends the row to the
  -- named table, indexes its key and changes no other table, or it returns an error and changes nothing.
  pub exec_insert-Outcome :
      (stmt : InsertStmt)
      → Returns
          (exec_insert x stmt)
          (λ r. Modified WellFormed (Inserts stmt) x stmt.table_name r ⊎ Refused x r)
  unfolding exec_insert
  exec_insert-Outcome stmt =
      modify-Safe WellFormed (Inserts stmt) x stmt.table_name (insert_into stmt) ready
        (λ db s _ _ v. insert_into-Safe stmt s v)

  -- On an executor whose open database, if any, is valid, UPDATE never faults: it sets the column in the
  -- rows of the named table that match and changes no other table, or it returns an error and changes
  -- nothing.
  pub exec_update-Outcome :
      (stmt : UpdateStmt)
      → Returns
          (exec_update x stmt)
          (λ r. Modified WellFormed (Updates stmt) x stmt.table_name r ⊎ Refused x r)
  unfolding exec_update
  exec_update-Outcome stmt =
      modify-Safe WellFormed (Updates stmt) x stmt.table_name (update_in stmt) ready
        (λ db s _ _ v. update_in-Safe stmt s v)
