-- ===== src/Execution/Delete/Effect.antt =====
-- What a DELETE does to its table, for the tables with the invariant (src/execution/executor.cpp).
use cpp_db.Base.{
  ℕ, ◌≡◌, refl, Bool, not, List, ◌++◌, ℤ, arith, length, Bytes, codes, keep, count, inl, inr, ◌∙◌,
  ap, print_nat, snprintf, Returns, some,
}
use cpp_db.Storage.Value.{Row}
use cpp_db.Storage.Table.{Table, primary_key_index}
use cpp_db.Storage.Index.{Entries}
use cpp_db.Storage.Database.{Database}
use cpp_db.Storage.Database.View.{table_of}
use cpp_db.Parser.Ast.{DeleteStmt}
use cpp_db.Execution.State.{Executor, Check, done, ◌>>=◌, Slot}
use cpp_db.Execution.Where.{passes}
use cpp_db.Execution.Where.Clauses.{Clause, where_column_lem, where_column-cases}
use cpp_db.Execution.Outcome.{
  Ends, Ends-Safe, Ends-bind, Safe, WellFormed, primary_key_index-InRange,
}
use cpp_db.Execution.Modify.{Effect, Works, IsReady, Modified}
use cpp_db.Execution.Modify.Effects.{modify-Modified}
use cpp_db.Execution.Delete.{Sweep, delete_loop, delete_from, exec_delete}
use cpp_db.Execution.Delete.Rows.{Deleted, delete_loop-Deleted, swept_all, hits_all}

-- The rows that pass the clause are gone, the others stand in their order, nothing else of the table
-- has changed, and the message counts the rows that are gone.
abbrev pub Deletes : DeleteStmt → Effect
Deletes stmt t e t' e' msg =
    (c : ℤ) × Clause t stmt.has_where stmt.where_clause c
    × (t'
        ≡ record t { rows = keep (λ r. not (passes stmt.has_where stmt.where_clause c r)) t.rows })
    × (msg
        ≡ snprintf 256 (
            print_nat (count (passes stmt.has_where stmt.where_clause c) t.rows)
            ++ codes " row(s) deleted"))

module _ (stmt : DeleteStmt) (s : Slot) (v : WellFormed s.table s.index) where
  delete_rest : (c : ℤ) → Check (Slot × Bytes)
  delete_rest c =
      delete_loop (passes stmt.has_where stmt.where_clause c) (primary_key_index s.table)
        (length s.table.rows) (record { table = s.table; index = s.index; deleted = 0 })
      >>= λ (w : Sweep). done (
        record { at = s.at; table = w.table; index = w.index },
        snprintf 256 (print_nat w.deleted ++ codes " row(s) deleted"),
      )

  delete_rest-Works :
      (c : ℤ)
      → Clause s.table stmt.has_where stmt.where_clause c
      → Ends (delete_rest c) (Works WellFormed (Deletes stmt) s)
  unfolding delete_rest
  delete_rest-Works c cl =
      let test : Row → Bool = passes stmt.has_where stmt.where_clause c in
      let start : Sweep = record { table = s.table; index = s.index; deleted = 0 } in
      Ends-bind (delete_loop test (primary_key_index s.table) (length s.table.rows) start) _
        (Deleted test (length s.table.rows) start) (Works WellFormed (Deletes stmt) s)
        (delete_loop-Deleted test (primary_key_index s.table) (length s.table.rows) start
          (primary_key_index-InRange s.table) (omega arith) v)
        λ w d. (
          refl,
          ap (λ (t : Table). t.name) d.rows,
          d.well_formed,
          (
            c,
            cl,
            d.rows
                ∙ ap (λ (rows : List Row). record s.table { rows = rows })
                    (swept_all test s.table.rows),
            ap (λ (n : ℕ). snprintf 256 (print_nat n ++ codes " row(s) deleted"))
                (d.deleted ∙ omega (arith, hits_all test s.table.rows)),
          ),
        )

  pub delete_from-Ends :
      (c : ℤ)
      → Clause s.table stmt.has_where stmt.where_clause c
      → Ends (delete_from stmt s) (Works WellFormed (Deletes stmt) s)
  unfolding delete_from
  delete_from-Ends c cl =
      rw
        (
          delete_from,
          where_column_lem s.table stmt.table_name stmt.has_where stmt.where_clause c cl,
        )
        (unfold delete_rest in delete_rest-Works c cl)

  pub delete_from-Safe : Safe (delete_from stmt s) (Works WellFormed (Deletes stmt) s)
  unfolding delete_from
  delete_from-Safe =
      elim (where_column-cases s.table stmt.table_name stmt.has_where stmt.where_clause) [
        | inl (msg, e) ↦ rw (delete_from, e) tt
        | inr (c, e, cl) ↦
            Ends-Safe (delete_from stmt s) (Works WellFormed (Deletes stmt) s)
              (delete_from-Ends c cl)
      ]

-- On an open, valid database whose table has the column of the clause, if there is one, DELETE
-- succeeds: it removes exactly the rows that pass the clause, keeps the others in their order, reports
-- their number, and changes no other table.
pub exec_delete-Modified :
    {Disk : Type 0} (x : Executor Disk) (stmt : DeleteStmt) (db : Database) (t : Table)
    (e : Entries) (c : ℤ)
    → IsReady WellFormed x
    → x.current_db ≡ some db
    → table_of db stmt.table_name ≡ some (t, e)
    → Clause t stmt.has_where stmt.where_clause c
    → Returns (exec_delete x stmt) (Modified WellFormed (Deletes stmt) x stmt.table_name)
unfolding exec_delete
exec_delete-Modified x stmt db t e c ready u f cl =
    modify-Modified WellFormed (Deletes stmt) x stmt.table_name (delete_from stmt) db t e ready u f
      (λ i v. delete_from-Ends stmt (record { at = i; table = t; index = e }) v c cl)
