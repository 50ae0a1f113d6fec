-- ===== src/Execution/Executor/Keeps.antt =====
-- Which statements keep an invariant of the tables (src/execution/executor.cpp): all those that change
-- no row do, if a new table has it.
use cpp_db.Storage.Database.{create_table, drop_table}
use cpp_db.Storage.Index.{Entries}
use cpp_db.Base.{
  Bool-cases, Bytes, List, Option, Returns, Returns_mono, [], inl, inr, map, none, refl, some,
  str_eq, str_eq_iff, sym, ◌∙◌, ◌≡◌, ◌≢◌, ◌⊎◌,
}
use cpp_db.Storage.Table.{Table, Column}
use cpp_db.Parser.Ast.{ColumnDef, SelectStmt, SqlStatement}
use cpp_db.Storage.Database.{Database, new_database}
use cpp_db.Execution.Modify.{DbReady, Effect, IsReady, Modified, Refused}
use cpp_db.Execution.State.{ExecResult, Executor, fail, require_db}
use cpp_db.Storage.Disk.{FileSystem}
use cpp_db.Storage.Database.View.{IsValid}
use cpp_db.Execution.Outcome.{WellFormed}
use cpp_db.Execution.Ddl.{
  close_if_current, exec_create_database, exec_create_table, exec_drop_database, exec_drop_table,
  exec_use, to_column,
}
use cpp_db.Storage.Database.Tables.{
  create_table-CreateOutcome, created, drop_table-DropOutcome, DropOutcome,
}
use cpp_db.Execution.Select.{exec_select}
use cpp_db.Execution.Executor.Select.{exec_select-Outcome}
use cpp_db.Execution.Executor.{execute}
use cpp_db.Execution.Modify.Checks.{require_db_closed, require_db_open}
use cpp_db.Execution.Delete.{exec_delete}
use cpp_db.Execution.Insert.{exec_insert}
use cpp_db.Execution.Update.{exec_update}

-- A statement that opens or drops a database names one. The parser makes no other.
abbrev pub NamesDatabase : SqlStatement → Type 0
NamesDatabase (SqlStatement.use_database name) = name ≢ []
NamesDatabase (SqlStatement.drop_database name) = name ≢ []
NamesDatabase _ = Unit

module _ (P : Table → Entries → Type 0)
    (fresh : (name dir : Bytes) (columns : List Column) → P (created name dir columns) [])
    (fs : FileSystem) (x : Executor fs.Disk) (ready : IsReady P x) where
  close_if_current-IsReady :
      (name : Bytes) → name ≢ [] → Returns (close_if_current fs x name) (IsReady P)
  unfolding close_if_current
  close_if_current-IsReady name n = elim (Bool-cases (str_eq x.current_db_name name)) [
    | inr e ↦ rw e ready
    | inl e ↦
        (elim x.current_db
            as (λ o.
              x.current_db ≡ o
              → DbReady P x.current_db_name o
              → Returns (close_if_current fs x name) (IsReady P)) [
                | none ↦ λ u h. absurd (n (sym ((str_eq_iff x.current_db_name name).0 e) ∙ h))
                | some db ↦ λ u h. rw (close_if_current, e, u) refl
              ])
          refl ready
  ]

  exec_drop_database-IsReady :
      (name : Bytes) → name ≢ [] → Returns (exec_drop_database fs x name) (λ r. IsReady P r.0)
  unfolding exec_drop_database
  exec_drop_database-IsReady name n =
      (elim (close_if_current fs x name)
          as (λ o.
            close_if_current fs x name ≡ o
            → Returns o (IsReady P)
            → Returns (exec_drop_database fs x name) (λ r. IsReady P r.0)) [
              | none ↦ λ u h. absurd h
              | some y ↦ λ u h. rw (exec_drop_database, u) h
            ])
        refl (close_if_current-IsReady name n)

  create_in :
      (name : Bytes) (defs : List ColumnDef) (db : Database)
      → x.current_db ≡ some db
      → DbReady P x.current_db_name (some db)
      → Returns (exec_create_table fs x name defs) (λ r. IsReady P r.0)
  unfolding exec_create_table
  create_in name defs db u (nn, v) = rw (exec_create_table, require_db_open x db u nn) ((nn, kept))
    where
      kept : IsValid P (create_table db name (map to_column defs)).0
      kept = elim (create_table-CreateOutcome P db v name (map to_column defs)) [
        | inl c ↦ c.valid (fresh name db.data_dir (map to_column defs))
        | inr (there, e) ↦ rw e v
      ]

  drop_in :
      (name : Bytes) (db : Database)
      → x.current_db ≡ some db
      → DbReady P x.current_db_name (some db)
      → Returns (exec_drop_table fs x name) (λ r. IsReady P r.0)
  unfolding exec_drop_table
  drop_in name db u (nn, v) =
      (elim (drop_table fs db x.disk name)
          as (λ o.
            drop_table fs db x.disk name ≡ o
            → Returns o (DropOutcome P db v name fs x.disk)
            → Returns (exec_drop_table fs x name) (λ r. IsReady P r.0)) [
              | none ↦ λ e h. absurd h
              | some (db', disk', dropped) ↦ λ e h.
                  rw (exec_drop_table, require_db_open x db u nn, e)
                    ((nn, elim h [ inl d ↦ d.valid | inr (gone, k, f) ↦ rw k v ]))
            ])
        refl (drop_table-DropOutcome P db v name fs x.disk)

  -- A handler for tables that starts with `require_db` keeps the invariant, if it does so on an open
  -- database.
  tables-IsReady :
      (m : Option (Executor fs.Disk × ExecResult))
      → ((msg : Bytes) → require_db x ≡ fail msg → Returns m (λ r. IsReady P r.0))
      → ((db : Database)
          → x.current_db ≡ some db
          → DbReady P x.current_db_name (some db)
          → Returns m (λ r. IsReady P r.0))
      → Returns m (λ r. IsReady P r.0)
  tables-IsReady m shut opened =
      (elim x.current_db
          as (λ o.
            x.current_db ≡ o → DbReady P x.current_db_name o → Returns m (λ r. IsReady P r.0)) [
              | none ↦ λ u n. let (msg, e) = require_db_closed x n in shut msg e
              | some db ↦ λ u d. opened db u d
            ])
        refl ready

  exec_create_table-IsReady :
      (name : Bytes) (defs : List ColumnDef)
      → Returns (exec_create_table fs x name defs) (λ r. IsReady P r.0)
  unfolding exec_create_table
  exec_create_table-IsReady name defs =
      tables-IsReady (exec_create_table fs x name defs) (λ msg e. rw (exec_create_table, e) ready)
        (λ db u d. create_in name defs db u d)

  exec_drop_table-IsReady :
      (name : Bytes) → Returns (exec_drop_table fs x name) (λ r. IsReady P r.0)
  unfolding exec_drop_table
  exec_drop_table-IsReady name =
      tables-IsReady (exec_drop_table fs x name) (λ msg e. rw (exec_drop_table, e) ready)
        (λ db u d. drop_in name db u d)

  exec_select-IsReady :
      (stmt : SelectStmt) → IsReady WellFormed x → Returns (exec_select x stmt) (λ r. IsReady P r.0)
  exec_select-IsReady stmt w =
      Returns_mono (exec_select x stmt) _ (λ r. IsReady P r.0) (exec_select-Outcome x stmt w)
        (λ r k. elim k [ inl s ↦ rw s.same ready | inr (e, _) ↦ rw e ready ])

  pub Modified-IsReady :
      (Q : Effect) (name : Bytes) (m : Option (Executor fs.Disk × ExecResult))
      → Returns m (λ r. Modified P Q x name r ⊎ Refused x r)
      → Returns m (λ r. IsReady P r.0)
  Modified-IsReady Q name m h =
      Returns_mono m _ (λ r. IsReady P r.0) h
        (λ r k. elim k [ inl s ↦ s.ready | inr (e, _) ↦ rw e ready ])

  -- What the statements that change rows keep.
  abbrev pub Keeps : SqlStatement → Type 0
  Keeps (SqlStatement.delete stmt) = Returns (exec_delete x stmt) (λ r. IsReady P r.0)
  Keeps (SqlStatement.insert stmt) = Returns (exec_insert x stmt) (λ r. IsReady P r.0)
  Keeps (SqlStatement.update stmt) = Returns (exec_update x stmt) (λ r. IsReady P r.0)
  Keeps _ = Unit

  pub execute-Keeps :
      (stmt : SqlStatement)
      → NamesDatabase stmt
      → IsReady WellFormed x
      → Keeps stmt
      → Returns (execute fs x stmt) (λ r. IsReady P r.0)
  unfolding execute
  execute-Keeps (SqlStatement.create_database name) n w k = unfold exec_create_database in ready
  execute-Keeps (SqlStatement.drop_database name) n w k = exec_drop_database-IsReady name n
  execute-Keeps (SqlStatement.use_database name) n w k =
      unfold exec_use new_database in (n, record { aligned = tt; distinct = tt })
  execute-Keeps (SqlStatement.create_table name defs) n w k = exec_create_table-IsReady name defs
  execute-Keeps (SqlStatement.drop_table name) n w k = exec_drop_table-IsReady name
  execute-Keeps (SqlStatement.select stmt) n w k = exec_select-IsReady stmt w
  execute-Keeps (SqlStatement.delete stmt) n w k = k
  execute-Keeps (SqlStatement.insert stmt) n w k = k
  execute-Keeps (SqlStatement.update stmt) n w k = k
  execute-Keeps (SqlStatement.invalid msg) n w k = ready
