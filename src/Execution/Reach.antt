-- ===== src/Execution/Reach.antt =====
-- The executor of src/execution/executor.cpp as a state machine: the states that statements reach.
use cpp_db.Base.{Bytes, List, OnResult, Option, [], length, some, ◌≡◌, ◌>>=◌, ◌∷◌}
use cpp_db.Storage.Disk.{FileSystem}
use cpp_db.Parser.Ast.{SqlStatement}
use cpp_db.Execution.State.{ExecResult, Executor}
use cpp_db.Execution.Executor.{execute, new_executor}
use cpp_db.Execution.Executor.Keeps.{NamesDatabase}
use cpp_db.Execution.Executor.Invariant.{SparesKeys}
use cpp_db.Execution.Modify.{IsReady}
use cpp_db.Execution.Keys.{Keyed}

module _ (fs : FileSystem) where
  open fs use {Disk}

  infix 10 ◌⟶◌
  -- A statement that the executor is given: it names a database where it opens or drops one, and is no
  -- UPDATE of a primary key.
  pub data ◌⟶◌ : Executor Disk → Executor Disk → Type 0 where
    executes :
        {x y : Executor Disk} (stmt : SqlStatement) (r : ExecResult)
        → NamesDatabase stmt
        → SparesKeys x stmt
        → execute fs x stmt ≡ some (y, r)
        → x ⟶ y

  -- The states that are reached from the constructor on.
  pub data Reached : Executor Disk → Type 0 where
    starts : (data_root : Bytes) (disk : Disk) → Reached (new_executor fs data_root disk)
    goes_on : {x y : Executor Disk} → Reached x → x ⟶ y → Reached y

  -- Statements executed one after the other: the state behind them, and the result of each.
  unfoldable pub execute_all :
      Executor Disk → List SqlStatement → Option (Executor Disk × List ExecResult)
  unfolding execute
  execute_all x [] = some (x, [])
  execute_all x (stmt ∷ stmts) =
      execute fs x stmt >>= λ (y, r). execute_all y stmts >>= λ (z, rs). some (z, r ∷ rs)

  -- Each statement names a database where it opens or drops one, and is no UPDATE of a primary key in the
  -- state in which it is executed.
  abbrev pub Spares : Executor Disk → List SqlStatement → Type 0
  Spares x [] = Unit
  Spares x (stmt ∷ stmts) =
      NamesDatabase stmt × SparesKeys x stmt × OnResult (execute fs x stmt) (λ r. Spares r.0 stmts)

  -- What a number of statements leaves.
  abbrev pub Ran : List SqlStatement → Executor Disk × List ExecResult → Type 0
  Ran stmts r = Reached r.0 × IsReady Keyed r.0 × (length r.1 ≡ length stmts)
