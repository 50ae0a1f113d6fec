-- ===== src/Execution/Insert/Keys.antt =====
-- INSERT keeps the int keys unique and indexed, and refuses a key that a row has
-- (src/execution/executor.cpp).
use cpp_db.Base.{
  ℕ, ◌≡◌, [], ◌∷◌, ◌++◌, some, ℤ, get_elem?, All, All-append, All-get, ap, Bytes, codes, subst, sym,
  print_int, snprintf, Option-cases, inl, inr,
}
use cpp_db.Storage.Value.{Row}
use cpp_db.Storage.Table.{Table, primary_key_index}
use cpp_db.Storage.Index.{Entries}
use cpp_db.Storage.Index.Lookup.{lookup}
use cpp_db.Storage.Database.{Database}
use cpp_db.Storage.Database.View.{table_of}
use cpp_db.Parser.Ast.{InsertStmt}
use cpp_db.Execution.State.{Executor, result_error, Slot}
use cpp_db.Execution.Outcome.{Safe, Safe_mono, WellFormed}
use cpp_db.Execution.Modify.{Works, IsReady}
use cpp_db.Execution.Modify.Effects.{modify_refuses}
use cpp_db.Execution.Insert.{build_row, insert_into, exec_insert}
use cpp_db.Execution.Insert.Rows.{key_of}
use cpp_db.Execution.Insert.Effect.{Inserts, Fills, insert_into-Safe, insert_into_duplicate}
use cpp_db.Execution.Keys.{
  HasEntry, UniqueKeys, Keyed, Keyed_of, UniqueKeys-append, HasEntry-grown, fresh-Apart,
}

Works-Keyed :
    (stmt : InsertStmt) (s : Slot) (r : Slot × Bytes)
    → Keyed s.table s.index
    → Works WellFormed (Inserts stmt) s r
    → Works Keyed (Inserts stmt) s r
Works-Keyed stmt s r v (a, n, w, (rows, i)) = (
  a,
  n,
  Keyed_of s.table r.0.table r.0.index (ap (λ (t : Table). t.columns) rows) w indexed unique,
  (rows, i),
)
  where
    indexed : All (HasEntry (primary_key_index s.table) r.0.index) r.0.table.rows
    indexed =
        subst (λ (t : Table). All (HasEntry (primary_key_index s.table) r.0.index) t.rows)
          (sym rows)
          (All-append (HasEntry (primary_key_index s.table) r.0.index) s.table.rows
            (build_row stmt.values ∷ [])
            (HasEntry-grown (primary_key_index s.table) s.index r.0.index s.table.rows i.kept
              v.indexed)
            (i.present, tt))

    unique : UniqueKeys (primary_key_index s.table) r.0.table.rows
    unique =
        subst (λ (t : Table). UniqueKeys (primary_key_index s.table) t.rows) (sym rows)
          (UniqueKeys-append (primary_key_index s.table) s.table.rows (build_row stmt.values)
            v.unique
            (fresh-Apart (primary_key_index s.table) s.index (build_row stmt.values) s.table.rows
              i.fresh v.indexed))

-- INSERT works on a table with unique keys as on every well-formed one, and keeps them unique.
pub insert_into-Keyed :
    (stmt : InsertStmt) (s : Slot)
    → Keyed s.table s.index
    → Safe (insert_into stmt s) (Works Keyed (Inserts stmt) s)
insert_into-Keyed stmt s v =
    Safe_mono (insert_into stmt s) (Works WellFormed (Inserts stmt) s)
      (Works Keyed (Inserts stmt) s) (insert_into-Safe stmt s v.well_formed)
      (λ r w. Works-Keyed stmt s r v w)

-- On an open, valid database with unique keys, INSERT of a row whose int key stands in a row of the
-- table already is refused with the error for duplicates, and changes nothing.
pub exec_insert_duplicate :
    {Disk : Type 0} (x : Executor Disk) (stmt : InsertStmt) (db : Database) (t : Table)
    (e : Entries) (i : ℕ) (row : Row) (k : ℤ)
    → IsReady Keyed x
    → x.current_db ≡ some db
    → table_of db stmt.table_name ≡ some (t, e)
    → Fills t stmt
    → get_elem? t.rows i ≡ some row
    → key_of (primary_key_index t) row ≡ some k
    → key_of (primary_key_index t) (build_row stmt.values) ≡ some k
    → exec_insert x stmt
      ≡ some (x, result_error (snprintf 256 (codes "Duplicate primary key: " ++ print_int k)))
unfolding exec_insert
exec_insert_duplicate x stmt db t e i row k ready u f fills g own new =
    modify_refuses Keyed x stmt.table_name (insert_into stmt) db t e _ ready u f (λ at v.
      elim (Option-cases (lookup e k)) [
        | inl n ↦ absurd (All-get (HasEntry (primary_key_index t) e) t.rows i v.indexed g k own n)
        | inr (j, l) ↦
            insert_into_duplicate stmt (record { at = at; table = t; index = e }) k j v.well_formed
              fills new l
      ])
