-- ===== src/Core/Vector/Assign.antt =====
-- src/core/vector.hpp: the copy and the move of one vector into another, on all vectors by their places. Each has
-- a buffer of its own, so that an exchange of pointers is an exchange of what is behind them.
use cpp_db.Base.{
  Bool-cases, List, Option, [], arith, if◌then◌else◌, inl, inr, none, some, subst, ℕ, ◌==◌, ◌≡◌,
  refl,
}
use cpp_db.Core.Places.{moved, update, update_self}
use cpp_db.Core.Vector.{Vector, clear_vector, copy, empty_vector}
use cpp_db.Core.Vector.Refines.{Holds, clear_vector-Leaves, copy-Leaves}

module _ {ℓ} {A : Type ℓ} where
  -- `Vector(Vector&&)`
  abbrev pub move_vector : ℕ → ℕ → (ℕ → Vector A) → ℕ → Vector A
  move_vector this other objects = update (update objects this (objects other)) other empty_vector

  -- `operator=(const Vector&)`: the buffer is as large as the other one's.
  unfoldable pub assign_vector : ℕ → ℕ → (ℕ → Vector A) → Option (ℕ → Vector A)
  unfolding clear_vector copy
  assign_vector this other objects =
      if this == other then some objects else elim (clear_vector (objects this)) [
        | none ↦ none
        | some cleared ↦ elim (copy (objects other)) [
          | none ↦ none
          | some v ↦ some (update objects this v)
        ]
      ]

  -- `operator=(Vector&&)`
  unfoldable pub assign_moved : ℕ → ℕ → (ℕ → Vector A) → Option (ℕ → Vector A)
  unfolding clear_vector
  assign_moved this other objects =
      if this == other then some objects else elim (clear_vector (objects this)) [
        | none ↦ none
        | some cleared ↦ some (move_vector this other objects)
      ]

  -- Every vector holds its list.
  abbrev pub Models : (ℕ → Vector A) → (ℕ → List A) → Type ℓ
  Models objects v = (o : ℕ) → Holds (objects o) (v o)

  -- The operation ends, and every vector holds its list afterwards.
  abbrev pub Sets : Option (ℕ → Vector A) → (ℕ → List A) → Type ℓ
  Sets r v = (objects : ℕ → Vector A) × (r ≡ some objects) × Models objects v

  Models-update :
      (objects : ℕ → Vector A) (v : ℕ → List A) (i : ℕ) (w : Vector A) (xs : List A)
      → Models objects v
      → Holds w xs
      → Models (update objects i w) (update v i xs)
  Models-update objects v i w xs h k o = elim (Bool-cases (o == i)) [
    | inl e ↦ rw e k
    | inr e ↦ rw e (h o)
  ]

  empty_vector-Holds : Holds (empty_vector {A = A}) []
  empty_vector-Holds = record {
    held = λ i lt. absurd (omega arith);
    count = refl;
    fits = omega arith;
  }

  -- Copying a vector into another gives it the elements, and no other vector changes.
  pub assign_vector-Sets :
      (objects : ℕ → Vector A) (v : ℕ → List A) (this other : ℕ)
      → Models objects v
      → Sets (assign_vector this other objects) (update v this (v other))
  unfolding assign_vector
  assign_vector-Sets objects v this other h = elim (Bool-cases (this == other)) [
    | inl e ↦ (
      objects,
      rw (assign_vector, e) refl,
      λ o. subst (Holds (objects o)) (update_self v this other e o) (h o),
    )
    | inr e ↦
        let (cleared, run, _) = clear_vector-Leaves (objects this) (v this) (h this) in
        let (w, copied, k) = copy-Leaves (objects other) (v other) (h other) in
        (
          update objects this w,
          rw (assign_vector, e, run, copied) refl,
          Models-update objects v this w (v other) h k,
        )
  ]

  -- Moving a vector into another gives it the elements and leaves the other one empty, and no third one
  -- changes; a vector that is moved into itself keeps its elements.
  pub assign_moved-Sets :
      (objects : ℕ → Vector A) (v : ℕ → List A) (this other : ℕ)
      → Models objects v
      → Sets (assign_moved this other objects) (moved v this other)
  unfolding assign_moved
  assign_moved-Sets objects v this other h = elim (Bool-cases (this == other)) [
    | inl e ↦ (objects, rw (assign_moved, e) refl, rw e h)
    | inr e ↦
        let (cleared, run, _) = clear_vector-Leaves (objects this) (v this) (h this) in
        (
          move_vector this other objects,
          rw (assign_moved, e, run) refl,
          rw e (
              Models-update (update objects this (objects other)) (update v this (v other)) other
                empty_vector [] (Models-update objects v this (objects other) (v other) h (h other))
                empty_vector-Holds),
        )
  ]
