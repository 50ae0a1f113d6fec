-- ===== src/Core/Vector/Refines.antt =====
-- src/core/vector.hpp: a vector is the list of its objects.
use cpp_db.Base.{
  subst, if◌then◌else◌, leb, length-append, ◌*◌, ◌-◌, Bool-cases, [], arith, false, get_elem?, inl,
  inr, length, ltb, lt→ltb, none, refl, some, suc, sym, true, zero, ℕ, ◌++◌, ◌+◌, ◌<◌, ◌==◌, ◌∙◌,
  ◌∷◌, ◌≡◌, ◌≢◌, ◌≤◌, List, Option,
}
use cpp_db.Core.Vector.{
  back, destroy_vector, empty_vector, clear_vector, copy, destroy, pop_last, push_back, reserve,
  move_cells, rebuffer, write, Vector, index, append,
}
use cpp_db.Core.Shift.{pop_back}

module _ {ℓ} {A : Type ℓ} where
  -- The first cells hold the elements, and fit the buffer.
  pub record Holds (v : Vector A) (xs : List A) : Type ℓ where
    pub held : (i : ℕ) → i < length xs → v.cells i ≡ get_elem? xs i
    pub count : v.size ≡ length xs
    pub fits : v.size ≤ v.capacity

  -- The operation ends, accesses objects only, and leaves these elements.
  abbrev pub Leaves : Option (Vector A) → List A → Type ℓ
  Leaves o xs = (w : Vector A) × (o ≡ some w) × Holds w xs

  element : (xs : List A) (i : ℕ) → i < length xs → (a : A) × (get_elem? xs i ≡ some a)
  element [] i h = absurd (omega arith)
  element (x ∷ xs) zero h = (x, refl)
  element (x ∷ xs) (suc i) h = element xs i (omega arith)

  get_elem?-left :
      (xs : List A) (a : A) (i : ℕ) → i < length xs → get_elem? (xs ++ a ∷ []) i ≡ get_elem? xs i
  get_elem?-left [] a i h = absurd (omega arith)
  get_elem?-left (x ∷ xs) a zero h = refl
  get_elem?-left (x ∷ xs) a (suc i) h = get_elem?-left xs a i (omega arith)

  get_elem?-last : (xs : List A) (a : A) → get_elem? (xs ++ a ∷ []) (length xs) ≡ some a
  get_elem?-last [] a = refl
  get_elem?-last (x ∷ xs) a = get_elem?-last xs a

  write-same : (cells : ℕ → Option A) (i : ℕ) (o : Option A) → write cells i o i ≡ o
  write-same cells i o = let e : (i == i) ≡ true = ground arith in rw e refl

  write-other :
      (cells : ℕ → Option A) (i j : ℕ) (o : Option A) → j ≢ i → write cells i o j ≡ cells j
  write-other cells i j o n = let e : (j == i) ≡ false = ground arith in rw e refl

  Copied : (ℕ → Option A) → ℕ → (ℕ → Option A) → Type ℓ
  Copied from n to = (i : ℕ) → i < n → to i ≡ from i

  Copied-write :
      (from to : ℕ → Option A) (i : ℕ) (a : A)
      → from i ≡ some a
      → Copied from i to
      → Copied from (suc i) (write to i (some a))
  unfolding Copied
  Copied-write from to i a e c j lt = elim (Bool-cases (j == i)) [
    | inl g ↦ let u : j ≡ i = ground arith in rw (g, u) (sym e)
    | inr g ↦ rw g (c j (ground arith))
  ]

  -- The loop copies every object, if the new buffer has room for them.
  move_cells-Copied :
      (room n i : ℕ) (from to : ℕ → Option A) (xs : List A)
      → ((j : ℕ) → j < length xs → from j ≡ get_elem? xs j)
      → i + n ≡ length xs
      → length xs ≤ room
      → Copied from i to
      → (cells : ℕ → Option A) × (move_cells room n i from to ≡ some cells)
        × Copied from (i + n) cells
  unfolding move_cells Copied
  move_cells-Copied room zero i from to xs h e r c = (to, refl, λ j lt. c j (omega arith))
  move_cells-Copied room (suc n) i from to xs h e r c =
      let (a, ea) = element xs i (omega arith) in
      let here : from i ≡ some a = h i (omega arith) ∙ ea in
      let room_here : ltb i room ≡ true = lt→ltb i room (omega arith) in
      let (cells, run, c') =
        move_cells-Copied room n (suc i) from (write to i (some a)) xs h (omega arith) r
          (Copied-write from to i a here c) in
      (cells, rw (move_cells, here, room_here) run, λ j lt. c' j (omega arith))

  rebuffer-Leaves :
      (room : ℕ) (v : Vector A) (xs : List A)
      → Holds v xs
      → length xs ≤ room
      → (w : Vector A) × (rebuffer room v ≡ some w) × Holds w xs × (w.capacity ≡ room)
  unfolding rebuffer Copied
  rebuffer-Leaves room v xs h r =
      let (cells, run, c) =
        move_cells-Copied room v.size 0 v.cells (λ i. none) xs h.held (omega (arith, h.count)) r
          (λ j lt. absurd (omega arith)) in
      (
        record { cells = cells; size = v.size; capacity = room },
        rw (rebuffer, run) refl,
        record {
          held = λ i lt. c i (omega (arith, h.count)) ∙ h.held i lt;
          count = h.count;
          fits = omega (arith, h.count);
        },
        refl,
      )

  -- `append` has room.
  append-Leaves :
      (v : Vector A) (xs : List A) (a : A)
      → Holds v xs
      → v.size < v.capacity
      → Leaves (append v a) (xs ++ a ∷ [])
  unfolding append
  append-Leaves v xs a h lt =
      let room : ltb v.size v.capacity ≡ true = lt→ltb v.size v.capacity lt in
      (
        record v { cells = write v.cells v.size (some a); size = v.size + 1 },
        rw (append, room) refl,
        record {
          held = λ i l. elim (Bool-cases (i == v.size)) [
            | inl e ↦
                let u : i ≡ length xs = ground (arith, h.count) in
                rw (e, u) (sym (get_elem?-last xs a))
            | inr e ↦
                let l' : i < length xs = ground (arith, h.count, length-append xs (a ∷ [])) in
                rw (e, get_elem?-left xs a i l') (h.held i l')
          ];
          count = omega (arith, h.count, length-append xs (a ∷ []));
          fits = omega arith;
        },
      )

  -- `push_back` adds an element at the end: the vector grows where it is full, and no object is lost.
  pub push_back-Leaves :
      (v : Vector A) (xs : List A) (a : A) → Holds v xs → Leaves (push_back v a) (xs ++ a ∷ [])
  unfolding push_back reserve
  push_back-Leaves v xs a h = elim (Bool-cases (leb v.capacity v.size)) [
    | inr e ↦ rw (push_back, e) (append-Leaves v xs a h (ground arith))
    | inl e ↦
        let cap : ℕ = if v.capacity == 0 then 8 else v.capacity * 2 in
        let grows : v.size < cap = ground (arith, h.fits) in
        let less : ltb v.capacity cap ≡ true =
          lt→ltb v.capacity cap (ground (arith, grows, h.fits)) in
        let (w, run, held, c) = rebuffer-Leaves cap v xs h (omega (arith, h.count)) in
        rw (push_back, e, less, run)
          (append-Leaves w xs a held (omega (arith, held.count, h.count, c, grows)))
  ]

  -- `operator[]` gives the element at a position below the size.
  pub index-get_elem? :
      (v : Vector A) (xs : List A) (i : ℕ) → Holds v xs → i < length xs → index v i ≡ get_elem? xs i
  unfolding index
  index-get_elem? v xs i h lt =
      let e : ltb i v.capacity ≡ true = lt→ltb i v.capacity (omega (arith, h.fits, h.count)) in
      rw (index, e) (h.held i lt)

  -- A copy has the elements of the vector, in a buffer of its own.
  pub copy-Leaves : (v : Vector A) (xs : List A) → Holds v xs → Leaves (copy v) xs
  unfolding copy
  copy-Leaves v xs h =
      let (w, run, held, c) = rebuffer-Leaves v.capacity v xs h (omega (arith, h.fits, h.count)) in
      (w, run, held)

  length-pop_back : (xs : List A) → length (pop_back xs) ≡ length xs - 1
  unfolding pop_back
  length-pop_back [] = refl
  length-pop_back (x ∷ []) = refl
  length-pop_back (x ∷ y ∷ ys) = omega (arith, length-pop_back (y ∷ ys))

  get_elem?-pop_back :
      (xs : List A) (i : ℕ) → i < length xs - 1 → get_elem? (pop_back xs) i ≡ get_elem? xs i
  unfolding pop_back
  get_elem?-pop_back [] i lt = refl
  get_elem?-pop_back (x ∷ []) i lt = absurd (omega arith)
  get_elem?-pop_back (x ∷ y ∷ ys) zero lt = refl
  get_elem?-pop_back (x ∷ y ∷ ys) (suc i) lt = get_elem?-pop_back (y ∷ ys) i (omega arith)

  pop_back_empty : (xs : List A) → length xs ≡ 0 → pop_back xs ≡ xs
  unfolding pop_back
  pop_back_empty [] e = refl
  pop_back_empty (x ∷ xs) e = absurd (omega arith)

  -- `pop_back` destroys the last element, which is an object, and does nothing on an empty vector.
  pub pop_last-Leaves :
      (v : Vector A) (xs : List A) → Holds v xs → Leaves (pop_last v) (pop_back xs)
  unfolding pop_last destroy index
  pop_last-Leaves v xs h = elim (Bool-cases (ltb 0 v.size)) [
    | inr e ↦
        rw (pop_last, e)
          ((v, refl, subst (Holds v) (sym (pop_back_empty xs (ground (arith, h.count)))) h))
    | inl e ↦
        let at : ℕ = v.size - 1 in
        let (a, ea) = element xs at (ground (arith, h.count)) in
        let there : index v at ≡ some a =
          index-get_elem? v xs at h (ground (arith, h.count)) ∙ ea in
        (
          record v { cells = write v.cells at none; size = at },
          rw (pop_last, e, destroy, there) refl,
          record {
            held = λ i lt.
                let l : i < length xs - 1 = omega (arith, lt, length-pop_back xs) in
                write-other v.cells at i none (λ u. omega (arith, l, h.count))
                ∙ h.held i (omega arith)
                ∙ sym (get_elem?-pop_back xs i l);
            count = omega (arith, h.count, length-pop_back xs);
            fits = omega (arith, h.fits);
          },
        )
  ]

  destroy_runs :
      (n i : ℕ) (v : Vector A) (xs : List A)
      → ((j : ℕ) → i ≤ j → j < length xs → v.cells j ≡ get_elem? xs j)
      → i + n ≡ length xs
      → length xs ≤ v.capacity
      → (w : Vector A) × (destroy n i v ≡ some w) × (w.capacity ≡ v.capacity)
  unfolding destroy index
  destroy_runs zero i v xs h e r = (v, refl, refl)
  destroy_runs (suc n) i v xs h e r =
      let (a, ea) = element xs i (omega arith) in
      let room : ltb i v.capacity ≡ true = lt→ltb i v.capacity (omega arith) in
      let here : v.cells i ≡ some a = h i (omega arith) (omega arith) ∙ ea in
      let (w, run, c) =
        destroy_runs n (suc i) (record v { cells = write v.cells i none }) xs
          (λ j le lt. write-other v.cells i j none (λ u. omega arith) ∙ h j (omega arith) lt)
          (omega arith) r in
      (w, rw (destroy, index, room, here) run, c)

  -- `clear` destroys every object and keeps the buffer.
  pub clear_vector-Leaves : (v : Vector A) (xs : List A) → Holds v xs → Leaves (clear_vector v) []
  unfolding clear_vector
  clear_vector-Leaves v xs h =
      let (w, run, c) =
        destroy_runs v.size 0 v xs (λ j le lt. h.held j lt) (omega (arith, h.count))
          (omega (arith, h.count, h.fits)) in
      (
        record w { size = 0 },
        rw (clear_vector, run) refl,
        record { held = λ i lt. absurd (omega arith); count = refl; fits = omega arith },
      )

  -- `back` gives the last element of a vector that is not empty.
  pub back-get_elem? :
      (v : Vector A) (xs : List A)
      → Holds v xs
      → 0 < length xs
      → back v ≡ get_elem? xs (length xs - 1)
  unfolding back
  back-get_elem? v xs h lt =
      let some_left : (v.size == 0) ≡ false = ground (arith, h.count) in
      let at : v.size - 1 ≡ length xs - 1 = omega (arith, h.count) in
      rw (back, some_left, at) (index-get_elem? v xs (length xs - 1) h (omega arith))

  -- The destructor reads objects only.
  pub destroy_vector-Leaves :
      (v : Vector A) (xs : List A) → Holds v xs → Leaves (destroy_vector v) []
  unfolding destroy_vector
  destroy_vector-Leaves v xs h =
      let (w, run, _) = clear_vector-Leaves v xs h in
      (
        empty_vector,
        rw (destroy_vector, run) refl,
        record { held = λ i lt. absurd (omega arith); count = refl; fits = omega arith },
      )
