-- ===== src/Execution/Update/Rows.antt =====
-- What the loop of an UPDATE does to the rows and the index (src/execution/executor.cpp).
use cpp_db.Base.{
  ℕ, zero, suc, ◌+◌, ◌<◌, ◌≡◌, refl, Bool, true, false, List, [], ◌∷◌, some, arith, length,
  get_elem?, get_or, All, count, Bool-cases, inl, inr, get_elem?-get_or, ◌∙◌, set, ap,
  if◌then◌else◌, All-get, All-set, lt→ltb, length-set, sym, map,
}
use cpp_db.Storage.Value.{Value, Row}
use cpp_db.Storage.Index
use cpp_db.Storage.Index.{Entries}
use cpp_db.Storage.Index.Search.{IsSorted}
use cpp_db.Storage.Index.Insert.{Inserted, insert-Inserted}
use cpp_db.Execution.State.{must}
use cpp_db.Execution.Update.{Pass, reindex, update_row_at, update_loop}
use cpp_db.Execution.Outcome.{Ends, Ends-bind, Ends-must, Ends_mono}

-- A row with the new value in the column, if it passes.
abbrev pub patched : (Row → Bool) → ℕ → Value → Row → Row
patched test col v row = if test row then set row col v else row

module _ (test : Row → Bool) (col : ℕ) (v : Value) where
  -- The rows with those from position `i` on patched, and how many of these pass.
  abbrev pub patched_from : ℕ → List Row → List Row
  patched_from zero rows = map (patched test col v) rows
  patched_from (suc i) [] = []
  patched_from (suc i) (r ∷ rs) = r ∷ patched_from i rs

  abbrev pub hits_from : ℕ → List Row → ℕ
  hits_from zero rows = count test rows
  hits_from (suc i) [] = 0
  hits_from (suc i) (r ∷ rs) = hits_from i rs

  patched_end : (rows : List Row) → patched_from (length rows) rows ≡ rows
  patched_end [] = refl
  patched_end (r ∷ rs) = ap (◌∷◌ r) (patched_end rs)

  hits_end : (rows : List Row) → hits_from (length rows) rows ≡ 0
  hits_end [] = refl
  hits_end (r ∷ rs) = hits_end rs

  patched_step :
      (i : ℕ) (rows : List Row) (row : Row)
      → get_elem? rows i ≡ some row
      → patched_from i rows ≡ patched_from (suc i) (set rows i (patched test col v row))
  patched_step i [] row g = cc
  patched_step zero (r ∷ rs) row g = ground arith
  patched_step (suc i) (r ∷ rs) row g = ap (◌∷◌ r) (patched_step i rs row g)

  hits_hit :
      (i : ℕ) (rows : List Row) (row new : Row)
      → get_elem? rows i ≡ some row
      → test row ≡ true
      → hits_from i rows ≡ suc (hits_from (suc i) (set rows i new))
  hits_hit i [] row new g e = cc
  hits_hit zero (r ∷ rs) row new g e = ground arith
  hits_hit (suc i) (r ∷ rs) row new g e = hits_hit i rs row new g e

  hits_miss :
      (i : ℕ) (rows : List Row) (row : Row)
      → get_elem? rows i ≡ some row
      → test row ≡ false
      → hits_from i rows ≡ hits_from (suc i) rows
  hits_miss i [] row g e = cc
  hits_miss zero (r ∷ rs) row g e = ground arith
  hits_miss (suc i) (r ∷ rs) row g e = hits_miss i rs row g e

set_get :
    (rows : List Row) (i : ℕ) (row : Row) → get_elem? rows i ≡ some row → set rows i row ≡ rows
set_get [] i row g = refl
set_get (r ∷ rs) zero row g = ground arith
set_get (r ∷ rs) (suc i) row g = ap (◌∷◌ r) (set_get rs i row g)

-- The index after an update of the key column is sorted, and otherwise it is the index before.
abbrev Reindexed : Bool → Entries → Entries → Type 0
Reindexed is_key es es' = IsSorted es' × (is_key ≡ false → es' ≡ es)

reindex-Reindexed :
    (is_key : Bool) (v : Value) (i : ℕ) (es : Entries)
    → IsSorted es
    → Ends (reindex is_key v i es) (Reindexed is_key es)
unfolding reindex
reindex-Reindexed true (Value.int k) i es s =
    Ends_mono (must (Index.insert es k i)) (Inserted es k i) (Reindexed true es)
      (Ends-must (Index.insert es k i) (Inserted es k i) (insert-Inserted es k i s))
      (λ es' h. (h.sorted, λ e. cc))
reindex-Reindexed true (Value.string t) i es s = (s, λ e. refl)
reindex-Reindexed true Value.none i es s = (s, λ e. refl)
reindex-Reindexed false v i es s = (s, λ e. refl)

module _ (test : Row → Bool) (col : ℕ) (is_key : Bool) (v : Value) (width : ℕ)
    (fits : col < width) where
  -- The state after the loop has patched the rows from position `i` on.
  pub record Updated (i : ℕ) (p p' : Pass) : Type 0 where
    pub rows : p'.rows ≡ patched_from test col v i p.rows
    pub updated : p'.updated ≡ p.updated + hits_from test col v i p.rows
    pub index : Reindexed is_key p.index p'.index
    pub widths : All (λ (r : Row). length r ≡ width) p'.rows

  record Stepped (i : ℕ) (p p' : Pass) : Type 0 where
    size : length p'.rows ≡ length p.rows
    rows : patched_from test col v i p.rows ≡ patched_from test col v (suc i) p'.rows
    updated :
        p.updated + hits_from test col v i p.rows
        ≡ p'.updated + hits_from test col v (suc i) p'.rows
    index : Reindexed is_key p.index p'.index
    widths : All (λ (r : Row). length r ≡ width) p'.rows

  update_row_at-Stepped :
      (i : ℕ) (p : Pass)
      → i < length p.rows
      → IsSorted p.index
      → All (λ (r : Row). length r ≡ width) p.rows
      → Ends (update_row_at test col is_key v i p) (Stepped i p)
  unfolding update_row_at
  update_row_at-Stepped i p lt s w =
      let row : Row = get_or p.rows i [] in
      let g : get_elem? p.rows i ≡ some row = get_elem?-get_or p.rows i [] lt in
      let lw : length row ≡ width = All-get (λ (r : Row). length r ≡ width) p.rows i w g in
      elim (Bool-cases (test row)) [
        | inr e ↦
            rw (update_row_at, g, e)
              (record {
                size = refl;
                rows =
                    patched_step test col v i p.rows row g
                    ∙ ap (patched_from test col v (suc i)) (rw e (set_get p.rows i row g));
                updated = ap (λ (k : ℕ). p.updated + k) (hits_miss test col v i p.rows row g e);
                index = (s, λ _. refl);
                widths = w;
              })
        | inl e ↦
            rw (update_row_at, g, e, lt→ltb col (length row) (omega arith))
              (Ends-bind (reindex is_key v i p.index) _ (Reindexed is_key p.index) (Stepped i p)
                (reindex-Reindexed is_key v i p.index s)
                λ es r. record {
                  size = length-set p.rows i (set row col v);
                  rows =
                      patched_step test col v i p.rows row g
                      ∙ ap (λ (x : Row). patched_from test col v (suc i) (set p.rows i x)) (rw e);
                  updated = omega (arith, hits_hit test col v i p.rows row (set row col v) g e);
                  index = r;
                  widths =
                      All-set (λ (r : Row). length r ≡ width) p.rows i (set row col v)
                        (length-set row col v ∙ lw) w;
                })
      ]

  Updated-step :
      (i : ℕ) (p p' p'' : Pass) → Stepped i p p' → Updated (suc i) p' p'' → Updated i p p''
  Updated-step i p p' p'' st up = record {
    rows = up.rows ∙ sym st.rows;
    updated = up.updated ∙ sym st.updated;
    index = (up.index.0, λ e. up.index.1 e ∙ st.index.1 e);
    widths = up.widths;
  }

  -- The loop ends, and patches every row from position `i` on once.
  pub update_loop-Updated :
      (n i : ℕ) (p : Pass)
      → i + n ≡ length p.rows
      → IsSorted p.index
      → All (λ (r : Row). length r ≡ width) p.rows
      → Ends (update_loop test col is_key v n i p) (Updated i p)
  unfolding update_loop
  update_loop-Updated zero i p e s w =
      let e' : i ≡ length p.rows = omega arith in
      rw e' (record {
        rows = sym (patched_end test col v p.rows);
        updated = rw (hits_end test col v p.rows) (omega arith);
        index = (s, λ _. refl);
        widths = w;
      })
  update_loop-Updated (suc n) i p e s w =
      Ends-bind (update_row_at test col is_key v i p)
        (λ p'. update_loop test col is_key v n (suc i) p') (Stepped i p) (Updated i p)
        (update_row_at-Stepped i p (omega arith) s w)
        λ p' st.
          Ends_mono (update_loop test col is_key v n (suc i) p') (Updated (suc i) p') (Updated i p)
            (update_loop-Updated n (suc i) p' (omega (arith, st.size)) st.index.0 st.widths)
            (λ p'' up. Updated-step i p p' p'' st up)
