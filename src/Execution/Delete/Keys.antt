-- ===== src/Execution/Delete/Keys.antt =====
-- DELETE keeps the int keys unique and indexed (src/execution/executor.cpp).
use cpp_db.Base.{
  ℕ, zero, suc, ◌+◌, ◌≤◌, ◌<◌, ◌≡◌, ◌≢◌, refl, Bool, List, [], none, some, ℤ, pos, negsuc, ◌==ℤ◌,
  ==ℤ_iff, arith, length, get_elem?, get_or, All, Bool-cases, inl, inr, get_elem?-get_or, ◌∙◌,
  remove_at, ap, All-remove_at, lt→ltb, length-remove_at, Bytes, All-get, if◌then◌else◌,
}
use cpp_db.Storage.Value.{Value, Row}
use cpp_db.Storage.Table.{Table, remove_row, primary_key_index}
use cpp_db.Storage.Table.Rows.{remove_row_lem}
use cpp_db.Storage.Index
use cpp_db.Storage.Index.{Entries}
use cpp_db.Storage.Index.Search.{IsSorted}
use cpp_db.Storage.Index.Lookup.{lookup}
use cpp_db.Storage.Index.Remove.{Removed, remove-Removed}
use cpp_db.Parser.Ast.{DeleteStmt}
use cpp_db.Execution.State.{done, must, Slot, ◌>>=◌}
use cpp_db.Execution.Where.{passes}
use cpp_db.Execution.Where.Clauses.{where_column-cases}
use cpp_db.Execution.Delete.{Sweep, remove_key, unindex, delete_row, delete_loop, delete_from}
use cpp_db.Execution.Outcome.{
  Ends, Ends-bind, Ends-Safe, Ends-must, Ends_mono, Safe, Safe_mono, Safe_and, WellFormed, InRange,
  primary_key_index-InRange,
}
use cpp_db.Execution.Modify.{Works}
use cpp_db.Execution.Delete.Effect.{Deletes, delete_from-Safe}
use cpp_db.Execution.Insert.Rows.{int_key, key_of}
use cpp_db.Execution.Keys.{
  HasEntry, UniqueKeys, Keyed, Keyed_of, UniqueKeys-remove_at, removed-Apart, HasEntry-without,
}

-- Only the value's key has left the index.
abbrev Unkeyed : Value → Entries → Entries → Type 0
Unkeyed v es es' = IsSorted es' × ((j : ℤ) → int_key v ≢ some j → lookup es' j ≡ lookup es j)

remove_key-Unkeyed :
    (v : Value) (es : Entries) → IsSorted es → Ends (remove_key v es) (Unkeyed v es)
unfolding remove_key
remove_key-Unkeyed (Value.int k) es s =
    Ends-bind (must (Index.remove es k)) (λ (r : Entries × Bool). done r.0) (Removed es k)
      (Unkeyed (Value.int k) es)
      (Ends-must (Index.remove es k) (Removed es k) (remove-Removed es k s))
      (λ r h. (h.sorted, λ j n. h.at_key j ∙ other j n))
  where
    other : (j : ℤ) → some k ≢ some j → (if k ==ℤ j then none else lookup es j) ≡ lookup es j
    other j n = elim (Bool-cases (k ==ℤ j)) [
      | inl e ↦ absurd (n (ap some ((==ℤ_iff k j).0 e)))
      | inr e ↦ rw e
    ]
remove_key-Unkeyed (Value.string t) es s = (s, λ j n. refl)
remove_key-Unkeyed Value.none es s = (s, λ j n. refl)

-- The invariant, with the primary-key column and the width of the rows fixed.
record KeyedAt (pk : ℤ) (width : ℕ) (rows : List Row) (es : Entries) : Type 0 where
  sorted : IsSorted es
  widths : All (λ (r : Row). length r ≡ width) rows
  indexed : All (HasEntry pk es) rows
  unique : UniqueKeys pk rows

abbrev Below : ℕ → ℤ → Type 0
Below width (pos i) = i < width
Below width (negsuc n) = Unit

unindex-Unkeyed :
    (pk : ℤ) (width : ℕ) (row : Row) (es : Entries)
    → Below width pk
    → length row ≡ width
    → IsSorted es
    → Ends
        (unindex pk row es)
        (λ es'. IsSorted es' × ((j : ℤ) → key_of pk row ≢ some j → lookup es' j ≡ lookup es j))
unfolding unindex
unindex-Unkeyed (negsuc n) width row es b w s = (s, λ j n. refl)
unindex-Unkeyed (pos pk) width row es b w s =
    let g : get_elem? row pk ≡ some (get_or row pk Value.none) =
      get_elem?-get_or row pk Value.none (omega arith) in
    rw (unindex, g)
      (Ends_mono (remove_key (get_or row pk Value.none) es) (Unkeyed (get_or row pk Value.none) es)
        _ (remove_key-Unkeyed (get_or row pk Value.none) es s)
        (λ es' (s', o). (s', λ j n. o j (λ h. n (ground arith)))))

-- The rows that are left to visit are there, and the invariant holds.
abbrev Sound : ℤ → ℕ → ℕ → Sweep → Type 0
Sound pk width n w = (n ≤ length w.table.rows) × KeyedAt pk width w.table.rows w.index

delete_row-Sound :
    (test : Row → Bool) (pk : ℤ) (width n : ℕ) (w : Sweep)
    → Below width pk
    → Sound pk width (suc n) w
    → Ends (delete_row test pk n w) (Sound pk width n)
unfolding delete_row
delete_row-Sound test pk width n w b (lt, v) =
    let row : Row = get_or w.table.rows n [] in
    let g : get_elem? w.table.rows n ≡ some row = get_elem?-get_or w.table.rows n [] lt in
    elim (Bool-cases (test row)) [
      | inr e ↦ rw (delete_row, g, e) ((omega arith, v))
      | inl e ↦
          rw (delete_row, g, e)
            (Ends-bind (unindex pk row w.index)
              (λ es. must (remove_row w.table n) >>= λ t.
                done (record { table = t; index = es; deleted = w.deleted + 1 }))
              (λ es'.
                IsSorted es' × ((j : ℤ) → key_of pk row ≢ some j → lookup es' j ≡ lookup w.index j))
              (Sound pk width n)
              (unindex-Unkeyed pk width row w.index b
                (All-get (λ (r : Row). length r ≡ width) w.table.rows n v.widths g) v.sorted)
              (λ es (s, o).
                rw (remove_row_lem w.table n, lt→ltb n (length w.table.rows) lt)
                  ((
                    omega (arith, length-remove_at w.table.rows n lt),
                    record {
                      sorted = s;
                      widths =
                          All-remove_at (λ (r : Row). length r ≡ width) w.table.rows n v.widths;
                      indexed =
                          HasEntry-without pk row w.index es (remove_at w.table.rows n) o
                            (removed-Apart pk w.table.rows n row v.unique g)
                            (All-remove_at (HasEntry pk w.index) w.table.rows n v.indexed);
                      unique = UniqueKeys-remove_at pk w.table.rows n v.unique;
                    },
                  ))))
    ]

delete_loop-Sound :
    (test : Row → Bool) (pk : ℤ) (width n : ℕ) (w : Sweep)
    → Below width pk
    → Sound pk width n w
    → Ends (delete_loop test pk n w) (Sound pk width 0)
unfolding delete_loop
delete_loop-Sound test pk width zero w b s = s
delete_loop-Sound test pk width (suc n) w b s =
    Ends-bind (delete_row test pk n w) (λ w'. delete_loop test pk n w') (Sound pk width n)
      (Sound pk width 0) (delete_row-Sound test pk width n w b s)
      (λ w' s'. delete_loop-Sound test pk width n w' b s')

InRange-Below : (t : Table) (z : ℤ) → InRange t z → Below (length t.columns) z
InRange-Below t (pos i) b = b
InRange-Below t (negsuc n) b = tt

delete_from-KeyedAt :
    (stmt : DeleteStmt) (s : Slot)
    → Keyed s.table s.index
    → Safe
        (delete_from stmt s)
        (λ r. KeyedAt (primary_key_index s.table) (length s.table.columns) r.0.table.rows r.0.index)
unfolding delete_from
delete_from-KeyedAt stmt s v =
    let pk : ℤ = primary_key_index s.table in
    let width : ℕ = length s.table.columns in
    elim (where_column-cases s.table stmt.table_name stmt.has_where stmt.where_clause) [
      | inl (msg, e) ↦ rw (delete_from, e) tt
      | inr (c, e, cl) ↦
          rw (delete_from, e)
            (Ends-Safe _ (λ (r : Slot × Bytes). KeyedAt pk width r.0.table.rows r.0.index)
              (Ends-bind
                (delete_loop (passes stmt.has_where stmt.where_clause c) pk (length s.table.rows)
                  (record { table = s.table; index = s.index; deleted = 0 }))
                _ (Sound pk width 0)
                (λ (r : Slot × Bytes). KeyedAt pk width r.0.table.rows r.0.index)
                (delete_loop-Sound (passes stmt.has_where stmt.where_clause c) pk width
                  (length s.table.rows) _
                  (InRange-Below s.table pk (primary_key_index-InRange s.table))
                  (
                    omega arith,
                    record {
                      sorted = v.well_formed.sorted;
                      widths = v.well_formed.widths;
                      indexed = v.indexed;
                      unique = v.unique;
                    },
                  ))
                (λ w (_, k). k)))
    ]

-- DELETE works on a table with unique keys as on every well-formed one, and keeps them unique.
pub delete_from-Keyed :
    (stmt : DeleteStmt) (s : Slot)
    → Keyed s.table s.index
    → Safe (delete_from stmt s) (Works Keyed (Deletes stmt) s)
delete_from-Keyed stmt s v =
    Safe_mono (delete_from stmt s) _ (Works Keyed (Deletes stmt) s)
      (Safe_and (delete_from stmt s) (Works WellFormed (Deletes stmt) s)
        (λ r. KeyedAt (primary_key_index s.table) (length s.table.columns) r.0.table.rows r.0.index)
        (delete_from-Safe stmt s v.well_formed) (delete_from-KeyedAt stmt s v))
      (λ r ((a, n, w, (c, cl, rows, msg)), k). (
        a,
        n,
        Keyed_of s.table r.0.table r.0.index (ap (λ (t : Table). t.columns) rows) w k.indexed
            k.unique,
        (c, cl, rows, msg),
      ))
