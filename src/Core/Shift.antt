-- ===== src/Core/Shift.antt =====
-- The loops by which the storage layer inserts into and removes from a `core::Vector`: every user
-- shifts the cells one by one (src/storage/index.cpp, table.cpp and database.cpp). A read or a write outside
-- the vector is a fault, and so is the end of the fuel.
pub mod Laws
use cpp_db.Base.{
  ◌++◌, ℕ, zero, suc, List, [], ◌∷◌, Option, none, some, length, get_elem?, set, ltb, if◌then◌else◌,
  ◌>>=◌, true, false,
}

module _ {ℓ} {A : Type ℓ} where
  -- `v[i] = value`
  unfoldable pub write_cell : List A → ℕ → A → Option (List A)
  write_cell xs i value = if ltb i (length xs) then some (set xs i value) else none

  -- `v[i] = v[j]`
  unfoldable pub copy_cell : List A → ℕ → ℕ → Option (List A)
  unfolding write_cell
  copy_cell xs i j = get_elem? xs j >>= λ value. write_cell xs i value

  -- `pop_back()`: nothing on an empty vector.
  unfoldable pub pop_back : List A → List A
  pop_back [] = []
  pop_back (x ∷ []) = []
  pop_back (x ∷ y ∷ ys) = x ∷ pop_back (y ∷ ys)

  -- `for (; i + 1 < v.size(); ++i) v[i] = v[i + 1];` with fuel.
  unfoldable pub shift_left : ℕ → ℕ → List A → Option (List A)
  unfolding copy_cell
  shift_left zero i xs = none
  shift_left (suc f) i xs = elim (ltb (suc i) (length xs)) [
    | false ↦ some xs
    | true ↦ copy_cell xs i (suc i) >>= λ ys. shift_left f (suc i) ys
  ]

  -- That loop and the `pop_back()` behind it. The size and one more are fuel enough.
  unfoldable pub erase : List A → ℕ → Option (List A)
  unfolding pop_back shift_left
  erase xs i = shift_left (suc (length xs)) i xs >>= λ ys. some (pop_back ys)

  -- `for (; i > at; --i) v[i] = v[i - 1];`
  unfoldable pub shift_right : ℕ → ℕ → List A → Option (List A)
  unfolding copy_cell
  shift_right at zero xs = some xs
  shift_right at (suc i) xs = elim (ltb at (suc i)) [
    | false ↦ some xs
    | true ↦ copy_cell xs (suc i) i >>= λ ys. shift_right at i ys
  ]

  -- That loop from the last cell on, and the write to the cell `at` behind it.
  unfoldable pub shift_in : List A → A → ℕ → A → Option (List A)
  unfolding write_cell shift_right
  shift_in xs placeholder at value =
      shift_right at (length xs) (xs ++ placeholder ∷ []) >>= λ ys. write_cell ys at value
