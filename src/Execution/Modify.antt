-- ===== src/Execution/Modify.antt =====
-- The handlers that change one table (src/execution/executor.cpp): the states in which they start,
-- and how they end.
pub mod Checks
pub mod Effects
use cpp_db.Base.{
  ℕ, ◌≡◌, ◌≢◌, refl, [], Option, none, some, Bytes, arith, str_eq, get_elem?, if◌then◌else◌,
  Returns, ap, sym, subst, Option-cases, codes, ◌∙◌, ◌⊎◌, inl, inr,
}
use mathlib.Core.Path.{subst₂}
use cpp_db.Storage.Table.{Table}
use cpp_db.Storage.Index.{Entries}
use cpp_db.Storage.Database.{Database, find_slot}
use cpp_db.Storage.Database.Slots.{Aligned-set}
use cpp_db.Storage.Database.View.{IsValid, table_of, view-set}
use cpp_db.Storage.Database.Tables.{Answers, find_slot-Answers}
use cpp_db.Execution.State.{
  Executor, ExecResult, Status, result_ok, result_error, Check, done, fail, fault, ◌>>=◌, conclude,
  require_db, Slot, require_table, put_slot, modify,
}
use cpp_db.Execution.Outcome.{Safe, Ends}

-- A name is set exactly while a database is open, and that database is valid.
abbrev pub DbReady : (Table → Entries → Type 0) → Bytes → Option Database → Type 0
DbReady P name none = name ≡ []
DbReady P name (some db) = (name ≢ []) × IsValid P db

abbrev pub IsReady : {Disk : Type 0} → (Table → Entries → Type 0) → Executor Disk → Type 0
IsReady P x = DbReady P x.current_db_name x.current_db

-- What the work on a slot gives: a table with the old name, and the predicate on the old and the new
-- table with their indexes, and on the message.
abbrev pub Effect : Type 1
Effect = Table → Entries → Table → Entries → Bytes → Type 0

abbrev pub Works : (Table → Entries → Type 0) → Effect → Slot → Slot × Bytes → Type 0
Works P Q s r =
    (r.0.at ≡ s.at)
    × (r.0.table.name ≡ s.table.name)
    × P r.0.table r.0.index
    × Q s.table s.index r.0.table r.0.index r.1

-- The handler succeeded: only the named table and its index have changed, by the effect.
pub record Modified {Disk : Type 0} (P : Table → Entries → Type 0) (Q : Effect) (x : Executor Disk)
    (name : Bytes) (r : Executor Disk × ExecResult) : Type 0 where
  pub db : Database
  pub db' : Database
  pub table : Table
  pub index : Entries
  pub table' : Table
  pub index' : Entries
  pub message : Bytes
  pub in_use : x.current_db ≡ some db
  pub found : table_of db name ≡ some (table, index)
  pub effect : Q table index table' index' message
  pub result : r.1 ≡ result_ok message
  pub state : r.0 ≡ record x { current_db = some db' }
  pub slots :
      (m : Bytes)
      → table_of db' m ≡ (if str_eq name m then some (table', index') else table_of db m)
  pub ready : IsReady P r.0

-- The handler returned an error and changed nothing.
abbrev pub Refused : {Disk : Type 0} → Executor Disk → Executor Disk × ExecResult → Type 0
Refused x r = (r.0 ≡ x) × (r.1.status ≡ Status.error)
