-- ===== src/Storage/Table/Rows.antt =====
-- Removing and replacing rows (src/storage/table.cpp).
use cpp_db.Base.{
  false, leb, refl, some, true, ℕ, ◌≡◌, arith, length, remove_at, if◌then◌else◌, ltb, Bool-cases,
  inl, inr,
}
use cpp_db.Core.Shift.Laws.{erase-eq-remove_at}
use cpp_db.Storage.Table.{Table, remove_row}

-- `remove_row` ends without an access outside the vector: it takes out the row at the index, keeping the
-- order and the schema, and leaves the table as it is if the index is not below the row count.
pub remove_row_lem :
    (t : Table) (index : ℕ)
    → remove_row t index
      ≡ some (if ltb index (length t.rows) then record t { rows = remove_at t.rows index } else t)
unfolding remove_row
remove_row_lem t index = elim (Bool-cases (ltb index (length t.rows))) [
  | inl e ↦
      let e' : leb (length t.rows) index ≡ false = ground arith in
      rw (remove_row, e, e', erase-eq-remove_at t.rows index (ground arith)) refl
  | inr e ↦ let e' : leb (length t.rows) index ≡ true = ground arith in rw (remove_row, e, e') refl
]
