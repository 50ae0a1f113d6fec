-- ===== src/Execution/Update/Effect.antt =====
-- What an UPDATE does to its table (src/execution/executor.cpp).
use cpp_db.Base.{
  ℕ, ◌<◌, ◌≡◌, refl, Bool, false, List, ◌++◌, some, ℤ, pos, ◌==ℤ◌, arith, length, Bytes, codes,
  count, map, inl, inr, ap, ◌∙◌, print_nat, snprintf, Returns,
}
use cpp_db.Storage.Value.{Value, Row}
use cpp_db.Storage.Table.{Table, find_column, primary_key_index}
use cpp_db.Storage.Index.{Entries}
use cpp_db.Storage.Database.{Database}
use cpp_db.Storage.Database.View.{table_of}
use cpp_db.Parser.Ast.{UpdateStmt}
use cpp_db.Execution.State.{Executor, Check, done, ◌>>=◌, Slot}
use cpp_db.Execution.Where.{literal_value, passes}
use cpp_db.Execution.Where.Clauses.{Clause, where_column_lem, where_column-cases}
use cpp_db.Execution.Outcome.{
  Ends, Ends-Safe, Ends-bind, Safe, WellFormed, require_column-cases, require_column_lem,
}
use cpp_db.Execution.Modify.{Effect, Works, IsReady, Modified}
use cpp_db.Execution.Modify.Effects.{modify-Modified}
use cpp_db.Execution.Update.{Pass, update_loop, update_in, exec_update}
use cpp_db.Execution.Update.Rows.{patched, Updated, update_loop-Updated}

abbrev pub new_value : UpdateStmt → Value
new_value stmt = literal_value stmt.set_is_int stmt.set_value

-- The rows that pass the clause have the new value in the SET column, the others are as they were,
-- nothing else of the table has changed, the index is as it was if the column is not the primary key,
-- and the message counts the rows that pass.
abbrev pub Updates : UpdateStmt → Effect
Updates stmt t e t' e' msg =
    (col : ℕ) × (c : ℤ) × (find_column t stmt.set_column ≡ pos col)
    × Clause t stmt.has_where stmt.where_clause c
    × (t' ≡ record t {
      rows = map (patched (passes stmt.has_where stmt.where_clause c) col (new_value stmt)) t.rows;
    })
    × ((pos col ==ℤ primary_key_index t) ≡ false → e' ≡ e)
    × (msg
        ≡ snprintf 256 (
            print_nat (count (passes stmt.has_where stmt.where_clause c) t.rows)
            ++ codes " row(s) updated"))

module _ (stmt : UpdateStmt) (s : Slot) (v : WellFormed s.table s.index) where
  update_rest : ℕ → ℤ → Check (Slot × Bytes)
  update_rest col c =
      update_loop (passes stmt.has_where stmt.where_clause c) col
        (pos col ==ℤ primary_key_index s.table) (new_value stmt) (length s.table.rows) 0
        (record { rows = s.table.rows; index = s.index; updated = 0 })
      >>= λ (p : Pass). done (
        record { at = s.at; table = record s.table { rows = p.rows }; index = p.index },
        snprintf 256 (print_nat p.updated ++ codes " row(s) updated"),
      )

  update_rest-Works :
      (col : ℕ) (c : ℤ)
      → find_column s.table stmt.set_column ≡ pos col
      → col < length s.table.columns
      → Clause s.table stmt.has_where stmt.where_clause c
      → Ends (update_rest col c) (Works WellFormed (Updates stmt) s)
  unfolding update_rest
  update_rest-Works col c f b cl =
      let test : Row → Bool = passes stmt.has_where stmt.where_clause c in
      let is_key : Bool = pos col ==ℤ primary_key_index s.table in
      let start : Pass = record { rows = s.table.rows; index = s.index; updated = 0 } in
      Ends-bind (update_loop test col is_key (new_value stmt) (length s.table.rows) 0 start) _
        (Updated test col is_key (new_value stmt) (length s.table.columns) b 0 start)
        (Works WellFormed (Updates stmt) s)
        (update_loop-Updated test col is_key (new_value stmt) (length s.table.columns) b
          (length s.table.rows) 0 start (omega arith) v.sorted v.widths)
        λ p d. (
          refl,
          refl,
          record { sorted = d.index.0; widths = d.widths },
          (
            col,
            c,
            f,
            cl,
            ap (λ (rows : List Row). record s.table { rows = rows }) d.rows,
            d.index.1,
            ap (λ (n : ℕ). snprintf 256 (print_nat n ++ codes " row(s) updated"))
                (d.updated ∙ omega arith),
          ),
        )

  pub update_in-Ends :
      (col : ℕ) (c : ℤ)
      → find_column s.table stmt.set_column ≡ pos col
      → Clause s.table stmt.has_where stmt.where_clause c
      → Ends (update_in stmt s) (Works WellFormed (Updates stmt) s)
  unfolding update_in
  update_in-Ends col c f cl =
      let (r, b) = require_column_lem s.table stmt.table_name stmt.set_column col f in
      rw
        (
          update_in,
          r,
          where_column_lem s.table stmt.table_name stmt.has_where stmt.where_clause c cl,
        )
        (unfold update_rest in update_rest-Works col c f b cl)

  pub update_in-Safe : Safe (update_in stmt s) (Works WellFormed (Updates stmt) s)
  unfolding update_in
  update_in-Safe = elim (require_column-cases s.table stmt.table_name stmt.set_column) [
    | inl (msg, e) ↦ rw (update_in, e) tt
    | inr (col, e, f) ↦
        elim (where_column-cases s.table stmt.table_name stmt.has_where stmt.where_clause) [
          | inl (msg, e') ↦ rw (update_in, e, e') tt
          | inr (c, e', cl) ↦
              Ends-Safe (update_in stmt s) (Works WellFormed (Updates stmt) s)
                (update_in-Ends col c f cl)
        ]
  ]

-- On an open, valid database whose table has the SET column and the column of the clause, if there is
-- one, UPDATE succeeds: it writes the new value to the column of exactly the rows that pass the clause,
-- reports their number, and changes no other table.
pub exec_update-Modified :
    {Disk : Type 0} (x : Executor Disk) (stmt : UpdateStmt) (db : Database) (t : Table)
    (e : Entries) (col : ℕ) (c : ℤ)
    → IsReady WellFormed x
    → x.current_db ≡ some db
    → table_of db stmt.table_name ≡ some (t, e)
    → find_column t stmt.set_column ≡ pos col
    → Clause t stmt.has_where stmt.where_clause c
    → Returns (exec_update x stmt) (Modified WellFormed (Updates stmt) x stmt.table_name)
unfolding exec_update
exec_update-Modified x stmt db t e col c ready u f fc cl =
    modify-Modified WellFormed (Updates stmt) x stmt.table_name (update_in stmt) db t e ready u f
      (λ i v. update_in-Ends stmt (record { at = i; table = t; index = e }) v col c fc cl)
