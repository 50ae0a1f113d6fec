-- ===== src/Execution/Update/Keys.antt =====
-- An UPDATE of another column keeps the int keys unique and indexed (src/execution/executor.cpp).
use cpp_db.Base.{
  ℕ, ◌≡◌, refl, Bool, false, ℤ, pos, negsuc, ◌==ℤ◌, arith, set, All, ap, Bytes, subst, sym, map,
  Bool-cases, inl, inr, get_elem?-set_ne,
}
use cpp_db.Storage.Value.{Value, Row}
use cpp_db.Storage.Table.{Table, find_column, primary_key_index}
use cpp_db.Parser.Ast.{UpdateStmt}
use cpp_db.Execution.State.{Slot}
use cpp_db.Execution.Where.{passes}
use cpp_db.Execution.Outcome.{Safe, Safe_mono, WellFormed}
use cpp_db.Execution.Modify.{Works}
use cpp_db.Execution.Update.{update_in}
use cpp_db.Execution.Update.Rows.{patched}
use cpp_db.Execution.Update.Effect.{Updates, new_value, update_in-Safe}
use cpp_db.Execution.Insert.Rows.{key_of}
use cpp_db.Execution.Keys.{HasEntry, UniqueKeys, Keyed, Keyed_of, UniqueKeys-map, HasEntry-map}

key_of-set :
    (pk : ℤ) (row : Row) (col : ℕ) (v : Value)
    → (pos col ==ℤ pk) ≡ false
    → key_of pk (set row col v) ≡ key_of pk row
key_of-set (negsuc n) row col v e = refl
key_of-set (pos pk) row col v e =
    rw (key_of, get_elem?-set_ne row v (λ (h : col ≡ pk). ground arith))

key_of-patched :
    (pk : ℤ) (test : Row → Bool) (col : ℕ) (v : Value)
    → (pos col ==ℤ pk) ≡ false
    → (row : Row) → key_of pk (patched test col v row) ≡ key_of pk row
key_of-patched pk test col v e row = elim (Bool-cases (test row)) [
  | inl h ↦ rw (patched, h) (key_of-set pk row col v e)
  | inr h ↦ rw (patched, h)
]

-- The SET column is not the primary key.
abbrev pub SparesKey : UpdateStmt → Table → Type 0
SparesKey stmt t =
    (col : ℕ) → find_column t stmt.set_column ≡ pos col → (pos col ==ℤ primary_key_index t) ≡ false

Works-Keyed :
    (stmt : UpdateStmt) (s : Slot) (r : Slot × Bytes)
    → Keyed s.table s.index
    → SparesKey stmt s.table
    → Works WellFormed (Updates stmt) s r
    → Works Keyed (Updates stmt) s r
Works-Keyed stmt s r v spares (a, n, w, (col, c, f, cl, rows, idx, msg)) = (
  a,
  n,
  Keyed_of s.table r.0.table r.0.index (ap (λ (t : Table). t.columns) rows) w indexed unique,
  (col, c, f, cl, rows, idx, msg),
)
  where
    pk : ℤ
    pk = primary_key_index s.table

    change : Row → Row
    change = patched (passes stmt.has_where stmt.where_clause c) col (new_value stmt)

    same : (row : Row) → key_of pk (change row) ≡ key_of pk row
    same =
        key_of-patched pk (passes stmt.has_where stmt.where_clause c) col (new_value stmt)
          (spares col f)

    indexed : All (HasEntry pk r.0.index) r.0.table.rows
    indexed =
        subst (λ (t : Table). All (HasEntry pk r.0.index) t.rows) (sym rows)
          (subst (λ es. All (HasEntry pk es) (map change s.table.rows)) (sym (idx (spares col f)))
            (HasEntry-map pk change same s.index s.table.rows v.indexed))

    unique : UniqueKeys pk r.0.table.rows
    unique =
        subst (λ (t : Table). UniqueKeys pk t.rows) (sym rows)
          (UniqueKeys-map pk change same s.table.rows v.unique)

-- An UPDATE that spares the primary key works on a table with unique keys as on every well-formed one,
-- and keeps them unique.
pub update_in-Keyed :
    (stmt : UpdateStmt) (s : Slot)
    → Keyed s.table s.index
    → SparesKey stmt s.table
    → Safe (update_in stmt s) (Works Keyed (Updates stmt) s)
update_in-Keyed stmt s v spares =
    Safe_mono (update_in stmt s) (Works WellFormed (Updates stmt) s) (Works Keyed (Updates stmt) s)
      (update_in-Safe stmt s v.well_formed) (λ r w. Works-Keyed stmt s r v spares w)
