-- ===== src/Storage/Database/Tables/Shifting.antt =====
-- The loop of `drop_table` (src/storage/database.cpp) removes one slot of three vectors of one length.
use cpp_db.Base.{
  ℕ, zero, suc, ◌<◌, ◌≡◌, ◌++◌, ◌∷◌, [], List, Bytes, some, refl, arith, length, remove_at,
  Bool-cases, inl, inr, ltb, false,
}
use cpp_db.Core.Shift.{shift_left}
use cpp_db.Core.Shift.Laws.{
  copy_cell-length, pop_back-append, shift_left-remove_at, shift_left-round,
}
use cpp_db.Storage.Table.{Table}
use cpp_db.Storage.Index.{Entries}
use cpp_db.Storage.Database.{Database, shift_slots, drop_slot}

-- The vectors of a database have one length.
abbrev pub SameLength : Database → Type 0
SameLength db =
    (length db.tables ≡ length db.table_names) × (length db.indexes ≡ length db.table_names)

-- The loops over the three vectors, run side by side.
shift_slots_lem :
    (f j : ℕ) (db : Database) (tables : List Table) (indexes : List Entries) (names : List Bytes)
    → SameLength db
    → shift_left f j db.tables ≡ some tables
    → shift_left f j db.indexes ≡ some indexes
    → shift_left f j db.table_names ≡ some names
    → shift_slots f j db
      ≡ some (record db { tables = tables; indexes = indexes; table_names = names })
unfolding shift_slots shift_left
shift_slots_lem zero j db tables indexes names s t x m = cc
shift_slots_lem (suc f) j db tables indexes names s t x m =
    elim (Bool-cases (ltb (suc j) (length db.table_names))) [
      | inl e ↦
          let (ts, ct, kt) = shift_left-round f j db.tables tables (rw s.0 e) t in
          let (xs, cx, kx) = shift_left-round f j db.indexes indexes (rw s.1 e) x in
          let (ms, cm, km) = shift_left-round f j db.table_names names e m in
          let same : (length ts ≡ length ms) × (length xs ≡ length ms) = omega (
            arith,
            copy_cell-length db.tables j (suc j) ts ct,
            copy_cell-length db.indexes j (suc j) xs cx,
            copy_cell-length db.table_names j (suc j) ms cm,
            s.0,
            s.1,
          ) in
          rw (shift_slots, e, cm, ct, cx)
            (shift_slots_lem f (suc j) (record db { tables = ts; indexes = xs; table_names = ms })
              tables indexes names same kt kx km)
      | inr e ↦
          let et : db.tables ≡ tables = ended f j db.tables tables (rw s.0 e) t in
          let ex : db.indexes ≡ indexes = ended f j db.indexes indexes (rw s.1 e) x in
          let em : db.table_names ≡ names = ended f j db.table_names names e m in
          rw (shift_slots, e)
            (λ i. some (record db { tables = et i; indexes = ex i; table_names = em i }))
    ]
  where
    ended :
        {A : Type 0} (f j : ℕ) (xs w : List A)
        → ltb (suc j) (length xs) ≡ false
        → shift_left (suc f) j xs ≡ some w
        → xs ≡ w
    ended f j xs w l e = let k : some xs ≡ some w = (rw (shift_left, l) at e) in cc

-- Dropping a slot ends without an access outside the vectors, and removes the name, the table and the index at
-- the position, and nothing else.
pub drop_slot_lem :
    (db : Database) (i : ℕ)
    → SameLength db
    → i < length db.table_names
    → drop_slot db i
      ≡ some (record db {
        tables = remove_at db.tables i;
        indexes = remove_at db.indexes i;
        table_names = remove_at db.table_names i;
      })
unfolding drop_slot
drop_slot_lem db i s b =
    let f : ℕ = suc (length db.table_names) in
    let (lt, t) = shift_left-remove_at f i db.tables (omega arith) (omega arith) in
    let (lx, x) = shift_left-remove_at f i db.indexes (omega arith) (omega arith) in
    let (lm, m) = shift_left-remove_at f i db.table_names b (omega arith) in
    rw
      (
        drop_slot,
        shift_slots_lem f i db (remove_at db.tables i ++ lt ∷ [])
            (remove_at db.indexes i ++ lx ∷ []) (remove_at db.table_names i ++ lm ∷ []) s t x m,
        pop_back-append (remove_at db.tables i) lt,
        pop_back-append (remove_at db.indexes i) lx,
        pop_back-append (remove_at db.table_names i) lm,
      )
      refl
