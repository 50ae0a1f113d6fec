-- ===== src/Execution/Executor.antt =====
-- The dispatch of src/execution/executor.cpp, the constructor and `shutdown`.
pub mod Outcomes
pub mod Select
pub mod Keeps
pub mod Invariant
use cpp_db.Base.{
  ℕ, Bool, true, false, List, [], ◌∷◌, Option, none, some, Bytes, codes, is_empty, if◌then◌else◌,
}
use cpp_db.Storage.Table.{new_table}
use cpp_db.Storage.Disk.{FileSystem}
use cpp_db.Storage.Database.{save_all}
use cpp_db.Parser.Ast.{SqlStatement}
use cpp_db.Execution.State.{Executor, ExecResult, result_error}
use cpp_db.Execution.Ddl.{
  exec_create_database, exec_drop_database, exec_use, exec_create_table, exec_drop_table,
  saved_disk,
}
use cpp_db.Execution.Select.{exec_select}
use cpp_db.Execution.Delete.{exec_delete}
use cpp_db.Execution.Insert.{exec_insert}
use cpp_db.Execution.Update.{exec_update}

module _ (fs : FileSystem) where
  open fs use {Disk, mkdir}

  -- `Executor(data_root)` on a disk.
  unfoldable pub new_executor : Bytes → Disk → Executor Disk
  unfolding new_table
  new_executor data_root disk = record {
    data_root = data_root;
    current_db_name = [];
    current_db = none;
    result_table = new_table (codes "__result__");
    disk = (mkdir data_root disk).1;
  }

  -- `execute`: the new state and the result, or none where a handler faults.
  unfoldable pub execute : Executor Disk → SqlStatement → Option (Executor Disk × ExecResult)
  unfolding exec_create_database exec_drop_database exec_use exec_create_table exec_drop_table
      exec_select exec_delete exec_insert exec_update
  execute x (SqlStatement.create_database name) = exec_create_database fs x name
  execute x (SqlStatement.drop_database name) = exec_drop_database fs x name
  execute x (SqlStatement.use_database name) = exec_use fs x name
  execute x (SqlStatement.create_table name defs) = exec_create_table fs x name defs
  execute x (SqlStatement.drop_table name) = exec_drop_table fs x name
  execute x (SqlStatement.select stmt) = exec_select x stmt
  execute x (SqlStatement.delete stmt) = exec_delete x stmt
  execute x (SqlStatement.insert stmt) = exec_insert x stmt
  execute x (SqlStatement.update stmt) = exec_update x stmt
  execute x (SqlStatement.invalid msg) =
      some (x, result_error (if is_empty msg then codes "Unknown statement" else msg))

  -- `shutdown`
  unfoldable pub shutdown : Executor Disk → Executor Disk
  unfolding saved_disk
  shutdown x = record x { disk = saved_disk fs x }
