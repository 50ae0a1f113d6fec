-- ===== src/Execution/Delete/Rows.antt =====
-- What the loop of a DELETE does to the rows and the index (src/execution/executor.cpp).
use cpp_db.Base.{
  ℕ, zero, suc, ◌+◌, ◌≤◌, ◌<◌, ◌≡◌, refl, Bool, true, false, not, List, [], ◌∷◌, some, ℤ, pos,
  negsuc, arith, length, get_elem?, get_or, keep, count, Bool-cases, inl, inr, get_elem?-get_or,
  ◌∙◌, remove_at, ap, if◌then◌else◌, All-get, All-remove_at, lt→ltb, length-remove_at, subst, sym,
}
use cpp_db.Storage.Value.{Value, Row}
use cpp_db.Storage.Table.{Table, remove_row}
use cpp_db.Storage.Table.Rows.{remove_row_lem}
use cpp_db.Storage.Index
use cpp_db.Storage.Index.{Entries}
use cpp_db.Storage.Index.Search.{IsSorted}
use cpp_db.Storage.Index.Remove.{Removed, remove-Removed}
use cpp_db.Execution.State.{done, must, ◌>>=◌}
use cpp_db.Execution.Delete.{Sweep, remove_key, unindex, delete_row, delete_loop}
use cpp_db.Execution.Outcome.{Ends, Ends-bind, Ends-must, Ends_mono, HasWidth, InRange, WellFormed}

module _ (test : Row → Bool) where
  -- The rows after the first `n` have been visited from the end.
  abbrev pub swept : ℕ → List Row → List Row
  swept zero rows = rows
  swept (suc n) [] = []
  swept (suc n) (r ∷ rs) = if test r then swept n rs else r ∷ swept n rs

  -- How many of the first `n` rows pass.
  abbrev pub hits : ℕ → List Row → ℕ
  hits zero rows = 0
  hits (suc n) [] = 0
  hits (suc n) (r ∷ rs) = if test r then suc (hits n rs) else hits n rs

  pub swept_all : (rows : List Row) → swept (length rows) rows ≡ keep (λ r. not (test r)) rows
  swept_all [] = refl
  swept_all (r ∷ rs) = ground (arith, swept_all rs)

  pub hits_all : (rows : List Row) → hits (length rows) rows ≡ count test rows
  hits_all [] = refl
  hits_all (r ∷ rs) = ground (arith, hits_all rs)

  swept_hit :
      (n : ℕ) (rows : List Row) (row : Row)
      → get_elem? rows n ≡ some row
      → test row ≡ true
      → swept (suc n) rows ≡ swept n (remove_at rows n)
  swept_hit n [] row g e = cc
  swept_hit zero (r ∷ rs) row g e = ground arith
  swept_hit (suc n) (r ∷ rs) row g e = ground (arith, swept_hit n rs row g e)

  swept_miss :
      (n : ℕ) (rows : List Row) (row : Row)
      → get_elem? rows n ≡ some row
      → test row ≡ false
      → swept (suc n) rows ≡ swept n rows
  swept_miss n [] row g e = cc
  swept_miss zero (r ∷ rs) row g e = ground arith
  swept_miss (suc n) (r ∷ rs) row g e = ground (arith, swept_miss n rs row g e)

  hits_hit :
      (n : ℕ) (rows : List Row) (row : Row)
      → get_elem? rows n ≡ some row
      → test row ≡ true
      → hits (suc n) rows ≡ suc (hits n (remove_at rows n))
  hits_hit n [] row g e = cc
  hits_hit zero (r ∷ rs) row g e = ground arith
  hits_hit (suc n) (r ∷ rs) row g e = ground (arith, hits_hit n rs row g e)

  hits_miss :
      (n : ℕ) (rows : List Row) (row : Row)
      → get_elem? rows n ≡ some row
      → test row ≡ false
      → hits (suc n) rows ≡ hits n rows
  hits_miss n [] row g e = cc
  hits_miss zero (r ∷ rs) row g e = ground arith
  hits_miss (suc n) (r ∷ rs) row g e = ground (arith, hits_miss n rs row g e)

-- The index without a value's key.
remove_key-IsSorted : (v : Value) (es : Entries) → IsSorted es → Ends (remove_key v es) IsSorted
unfolding remove_key
remove_key-IsSorted (Value.int k) es s =
    Ends-bind (must (Index.remove es k)) (λ (r : Entries × Bool). done r.0) (Removed es k) IsSorted
      (Ends-must (Index.remove es k) (Removed es k) (remove-Removed es k s)) (λ r h. h.sorted)
remove_key-IsSorted _ es s = s

unindex-IsSorted :
    (t : Table) (pk : ℤ) (row : Row) (es : Entries)
    → InRange t pk
    → HasWidth t row
    → IsSorted es
    → Ends (unindex pk row es) IsSorted
unfolding unindex
unindex-IsSorted t (negsuc n) row es b w s = s
unindex-IsSorted t (pos pk) row es b w s =
    rw (get_elem?-get_or row pk Value.none (omega arith))
      (remove_key-IsSorted (get_or row pk Value.none) es s)

-- The state after the loop.
pub record Deleted (test : Row → Bool) (n : ℕ) (w w' : Sweep) : Type 0 where
  pub rows : w'.table ≡ record w.table { rows = swept test n w.table.rows }
  pub deleted : w'.deleted ≡ w.deleted + hits test n w.table.rows
  pub well_formed : WellFormed w'.table w'.index

-- The state after the visit of row `n`, which leaves `n` rows to visit.
record Visited (test : Row → Bool) (n : ℕ) (w w' : Sweep) : Type 0 where
  same : w'.table ≡ record w.table { rows = w'.table.rows }
  left : n ≤ length w'.table.rows
  rows : swept test (suc n) w.table.rows ≡ swept test n w'.table.rows
  deleted : w.deleted + hits test (suc n) w.table.rows ≡ w'.deleted + hits test n w'.table.rows
  well_formed : WellFormed w'.table w'.index

visit_hit :
    (test : Row → Bool) (n : ℕ) (w : Sweep) (row : Row) (es : Entries)
    → get_elem? w.table.rows n ≡ some row
    → n < length w.table.rows
    → test row ≡ true
    → WellFormed w.table w.index
    → IsSorted es
    → Ends
        (must (remove_row w.table n) >>= λ t.
          done (record { table = t; index = es; deleted = w.deleted + 1 }))
        (Visited test n w)
visit_hit test n w row es g lt e v s =
    rw (remove_row_lem w.table n, lt→ltb n (length w.table.rows) lt)
      (record {
        same = refl;
        left = omega (arith, length-remove_at w.table.rows n lt);
        rows = swept_hit test n w.table.rows row g e;
        deleted = omega (arith, hits_hit test n w.table.rows row g e);
        well_formed = record {
          sorted = s;
          widths = All-remove_at (HasWidth w.table) w.table.rows n v.widths;
        };
      })

delete_row-Visited :
    (test : Row → Bool) (pk : ℤ) (n : ℕ) (w : Sweep)
    → InRange w.table pk
    → n < length w.table.rows
    → WellFormed w.table w.index
    → Ends (delete_row test pk n w) (Visited test n w)
unfolding delete_row
delete_row-Visited test pk n w b lt v =
    let row : Row = get_or w.table.rows n [] in
    let g : get_elem? w.table.rows n ≡ some row = get_elem?-get_or w.table.rows n [] lt in
    elim (Bool-cases (test row)) [
      | inr e ↦
          rw (delete_row, g, e)
            (record {
              same = refl;
              left = omega arith;
              rows = swept_miss test n w.table.rows row g e;
              deleted = ap (λ (k : ℕ). w.deleted + k) (hits_miss test n w.table.rows row g e);
              well_formed = v;
            })
      | inl e ↦
          rw (delete_row, g, e)
            (Ends-bind (unindex pk row w.index)
              (λ es. must (remove_row w.table n) >>= λ t.
                done (record { table = t; index = es; deleted = w.deleted + 1 }))
              IsSorted (Visited test n w)
              (unindex-IsSorted w.table pk row w.index b
                (All-get (HasWidth w.table) w.table.rows n v.widths g) v.sorted)
              (λ es s. visit_hit test n w row es g lt e v s))
    ]

InRange-same :
    (t t' : Table) (z : ℤ) → t' ≡ record t { rows = t'.rows } → InRange t z → InRange t' z
InRange-same t t' (pos i) e b =
    subst (λ (k : ℕ). i < k) (sym (ap (λ (x : Table). length x.columns) e)) b
InRange-same t t' (negsuc n) e b = tt

Deleted-step :
    (test : Row → Bool) (n : ℕ) (w w' w'' : Sweep)
    → Visited test n w w'
    → Deleted test n w' w''
    → Deleted test (suc n) w w''
Deleted-step test n w w' w'' v d = record {
  rows = d.rows ∙ swept_path;
  deleted = d.deleted ∙ sym v.deleted;
  well_formed = d.well_formed;
}
  where
    swept_path :
        record w'.table { rows = swept test n w'.table.rows }
        ≡ record w.table { rows = swept test (suc n) w.table.rows }
    swept_path = rw v.rows (λ i. record (v.same i) { rows = swept test n w'.table.rows })

-- The loop over the last `n` visits ends, and visits every row once.
pub delete_loop-Deleted :
    (test : Row → Bool) (pk : ℤ) (n : ℕ) (w : Sweep)
    → InRange w.table pk
    → n ≤ length w.table.rows
    → WellFormed w.table w.index
    → Ends (delete_loop test pk n w) (Deleted test n w)
unfolding delete_loop
delete_loop-Deleted test pk zero w b le v = record {
  rows = refl;
  deleted = omega arith;
  well_formed = v;
}
delete_loop-Deleted test pk (suc n) w b le v =
    Ends-bind (delete_row test pk n w) (λ w'. delete_loop test pk n w') (Visited test n w)
      (Deleted test (suc n) w) (delete_row-Visited test pk n w b le v)
      λ w' vis.
        Ends_mono (delete_loop test pk n w') (Deleted test n w') (Deleted test (suc n) w)
          (delete_loop-Deleted test pk n w' (InRange-same w.table w'.table pk vis.same b) vis.left
            vis.well_formed)
          (λ w'' d. Deleted-step test n w w' w'' vis d)
