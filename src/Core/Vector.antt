-- ===== src/Core/Vector.antt =====
-- src/core/vector.hpp: the buffer behind a vector. `_data` is a function from the positions to the cells,
-- of which one is none where no object lives; a read of such a cell and an access behind the capacity are
-- faults.
pub mod Refines
pub mod Assign
use cpp_db.Base.{
  false, if◌then◌else◌, leb, ltb, none, some, suc, true, zero, ℕ, ◌*◌, ◌+◌, ◌-◌, ◌==◌, Option, Bool,
}

module _ {ℓ} (A : Type ℓ) where
  -- `_data`, `_size` and `_capacity`
  pub record Vector : Type ℓ where
    pub cells : ℕ → Option A
    pub size : ℕ
    pub capacity : ℕ

module _ {ℓ} {A : Type ℓ} where
  -- `Vector()`
  abbrev pub empty_vector : Vector A
  empty_vector = record { cells = λ i. none; size = 0; capacity = 0 }

  -- The cells after a write to one of them.
  abbrev pub write : (ℕ → Option A) → ℕ → Option A → ℕ → Option A
  write cells at o i = if i == at then o else cells i

  -- `operator[]`
  unfoldable pub index : Vector A → ℕ → Option A
  index v i = if ltb i v.capacity then v.cells i else none

  -- The loop that moves or copies objects into a new buffer with room for `room`: `n` cells from the one
  -- with number `i` on.
  unfoldable pub move_cells : ℕ → ℕ → ℕ → (ℕ → Option A) → (ℕ → Option A) → Option (ℕ → Option A)
  move_cells room zero i from to = some to
  move_cells room (suc n) i from to = elim (from i) [
    | none ↦ none
    | some a ↦ elim (ltb i room) [
      | false ↦ none
      | true ↦ move_cells room n (suc i) from (write to i (some a))
    ]
  ]

  -- The buffer of a new capacity with the objects of the vector.
  unfoldable pub rebuffer : ℕ → Vector A → Option (Vector A)
  unfolding move_cells
  rebuffer room v = elim (move_cells room v.size 0 v.cells (λ i. none)) [
    | none ↦ none
    | some cells ↦ some (record { cells = cells; size = v.size; capacity = room })
  ]

  -- `reserve`
  unfoldable pub reserve : ℕ → Vector A → Option (Vector A)
  unfolding rebuffer
  reserve new_cap v = if ltb v.capacity new_cap then rebuffer new_cap v else some v

  -- `new (_data + _size) T(value); ++_size`
  unfoldable pub append : Vector A → A → Option (Vector A)
  append v a =
      if ltb v.size v.capacity
      then some (record v { cells = write v.cells v.size (some a); size = v.size + 1 })
      else none

  -- `push_back`
  unfoldable pub push_back : Vector A → A → Option (Vector A)
  unfolding reserve append
  push_back v a =
      if leb v.capacity v.size
      then elim (reserve (if v.capacity == 0 then 8 else v.capacity * 2) v) [
        | none ↦ none
        | some w ↦ append w a
      ]
      else append v a

  -- The destructor of a cell, and the loop of `clear` over `n` cells from the one with number `i` on.
  unfoldable pub destroy : ℕ → ℕ → Vector A → Option (Vector A)
  destroy zero i v = some v
  destroy (suc n) i v = elim (index v i) [
    | none ↦ none
    | some a ↦ destroy n (suc i) (record v { cells = write v.cells i none })
  ]

  -- `pop_back`
  unfoldable pub pop_last : Vector A → Option (Vector A)
  unfolding destroy index
  pop_last v =
      if ltb 0 v.size then destroy 1 (v.size - 1) (record v { size = v.size - 1 }) else some v

  -- `clear`
  unfoldable pub clear_vector : Vector A → Option (Vector A)
  unfolding destroy index
  clear_vector v = elim (destroy v.size 0 v) [ none ↦ none | some w ↦ some (record w { size = 0 }) ]

  -- `Vector(other)`
  unfoldable pub copy : Vector A → Option (Vector A)
  unfolding rebuffer
  copy other = rebuffer other.capacity other

  -- The loop of `Vector(n)`, which makes an object in each of `n` cells from the one with number `i` on.
  unfoldable pub fill_default : A → ℕ → ℕ → (ℕ → Option A) → ℕ → Option A
  fill_default default zero i cells = cells
  fill_default default (suc n) i cells =
      fill_default default n (suc i) (write cells i (some default))

  -- `Vector(n)`, from what the constructor without arguments makes of an object.
  unfoldable pub sized_vector : A → ℕ → Vector A
  unfolding fill_default
  sized_vector default n = record {
    cells = fill_default default n 0 (λ i. none);
    size = n;
    capacity = n;
  }

  -- `~Vector`, behind which no buffer is left.
  unfoldable pub destroy_vector : Vector A → Option (Vector A)
  unfolding clear_vector
  destroy_vector v = elim (clear_vector v) [ none ↦ none | some w ↦ some empty_vector ]

  -- `back`
  unfoldable pub back : Vector A → Option A
  unfolding index
  back v = if v.size == 0 then none else index v (v.size - 1)
