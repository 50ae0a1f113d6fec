-- ===== src/Execution/Modify/Checks.antt =====
-- The guards of the handlers (src/execution/executor.cpp): what `require_db`, `get_table` and
-- `get_index` give on an open, valid database, and how the early returns end a handler.
use cpp_db.Base.{
  ℕ, ◌≡◌, ◌≢◌, [], none, some, Bytes, arith, get_elem?, Returns, Option-cases, codes, inl, inr,
}
use mathlib.Core.Path.{subst₂}
use cpp_db.Storage.Table.{Table}
use cpp_db.Storage.Index.{Entries}
use cpp_db.Storage.Database.{Database, find_slot}
use cpp_db.Storage.Database.View.{IsValid, table_of}
use cpp_db.Storage.Database.Tables.{Answers, find_slot-Answers}
use cpp_db.Execution.State.{
  about, Executor, ExecResult, result_error, Check, done, fail, fault, ◌>>=◌, conclude, require_db,
  require_table,
}
use cpp_db.Execution.Outcome.{Safe, Ends}

pub conclude-Ends :
    {Disk R : Type 0} (x : Executor Disk) (m : Check R) (f : R → Executor Disk × ExecResult)
    (W : R → Type 0) (G : Executor Disk × ExecResult → Type 0)
    → Ends m W
    → ((r : R) → W r → G (f r))
    → Returns (conclude x (m >>= λ r. done (f r))) G
conclude-Ends x (done r) f W G h k = k r h
conclude-Ends x (fail msg) f W G h k = absurd h
conclude-Ends x fault f W G h k = absurd h

pub conclude-Safe :
    {Disk R : Type 0} (x : Executor Disk) (m : Check R) (f : R → Executor Disk × ExecResult)
    (W : R → Type 0) (G : Executor Disk × ExecResult → Type 0)
    → Safe m W
    → ((r : R) → W r → G (f r))
    → ((msg : Bytes) → G (x, result_error msg))
    → Returns (conclude x (m >>= λ r. done (f r))) G
conclude-Safe x (done r) f W G h k l = k r h
conclude-Safe x (fail msg) f W G h k l = l msg
conclude-Safe x fault f W G h k l = absurd h

pub conclude-bind :
    {Disk A : Type 0} (x : Executor Disk) (m : Check A) (k : A → Check (Executor Disk × ExecResult))
    (W : A → Type 0) (G : Executor Disk × ExecResult → Type 0)
    → Safe m W
    → ((a : A) → W a → Returns (conclude x (k a)) G)
    → ((msg : Bytes) → G (x, result_error msg))
    → Returns (conclude x (m >>= k)) G
conclude-bind x (done a) k W G h f l = f a h
conclude-bind x (fail msg) k W G h f l = l msg
conclude-bind x fault k W G h f l = absurd h

pub require_db_open :
    {Disk : Type 0} (x : Executor Disk) (db : Database)
    → x.current_db ≡ some db
    → x.current_db_name ≢ []
    → require_db x ≡ done db
unfolding require_db
require_db_open x db e n = ground arith

pub require_db_closed :
    {Disk : Type 0} (x : Executor Disk)
    → x.current_db_name ≡ []
    → (msg : Bytes) × (require_db x ≡ fail msg)
unfolding require_db
require_db_closed x e =
    (codes "No database selected. Use 'use <dbname>' first.", rw (require_db, e))

require_table_at :
    (db : Database) (name : Bytes) (i : ℕ) (t : Table) (e : Entries)
    → find_slot db name ≡ some i
    → get_elem? db.tables i ≡ some t
    → get_elem? db.indexes i ≡ some e
    → require_table db name ≡ done (record { at = i; table = t; index = e })
unfolding require_table
require_table_at db name i t e f gt ge = rw (require_table, f, gt, ge)

-- The slot that a handler works on, when its database is open and valid.
pub require_table-Safe :
    (P : Table → Entries → Type 0) (db : Database) (name : Bytes)
    → IsValid P db
    → Safe (require_table db name) (λ s.
      (get_elem? db.table_names s.at ≡ some name)
      × (s.table.name ≡ name)
      × (table_of db name ≡ some (s.table, s.index))
      × P s.table s.index)
require_table-Safe P db name v = elim (Option-cases (find_slot db name)) [
  | inl e ↦ unfold require_table in rw (require_table, e) tt
  | inr (i, e) ↦
      let (t, es, gn, gt, ge, f, tn, p) =
        (let h : Answers P db v name (some i) = rw e at (find_slot-Answers P db v name) in h) in
      rw (require_table_at db name i t es e gt ge) ((gn, tn, f, p))
]

pub require_table_found :
    (P : Table → Entries → Type 0) (db : Database) (name : Bytes) (t : Table) (e : Entries)
    → IsValid P db
    → table_of db name ≡ some (t, e)
    → (i : ℕ) × (require_table db name ≡ done (record { at = i; table = t; index = e }))
      × (get_elem? db.table_names i ≡ some name)
      × (t.name ≡ name)
      × P t e
require_table_found P db name t e v f = elim (Option-cases (find_slot db name)) [
  | inl n ↦
      let (absent, _) =
        (let h : Answers P db v name none = rw n at (find_slot-Answers P db v name) in h) in
      absurd (cc)
  | inr (i, n) ↦
      let (t', es, gn, gt, ge, f', tn, p) =
        (let h : Answers P db v name (some i) = rw n at (find_slot-Answers P db v name) in h) in
      let et : t' ≡ t = cc in
      let ee : es ≡ e = cc in
      (
        i,
        rw (← et, ← ee) (require_table_at db name i t' es n gt ge),
        gn,
        rw (← et) tn,
        subst₂ P et ee p,
      )
]

-- A name that no table has is refused.
pub require_table_absent :
    (P : Table → Entries → Type 0) (db : Database) (name : Bytes)
    → IsValid P db
    → table_of db name ≡ none
    → (msg : Bytes) × (require_table db name ≡ fail msg)
unfolding require_table
require_table_absent P db name v f = elim (Option-cases (find_slot db name)) [
  | inl n ↦ (about "Table '" name "' does not exist", rw (require_table, n))
  | inr (i, n) ↦
      let (t, es, gn, gt, ge, f', tn, p) =
        (let h : Answers P db v name (some i) = rw n at (find_slot-Answers P db v name) in h) in
      absurd (cc)
]
