-- ===== src/Core/Shift/Laws.antt =====
-- The shifting loops are removal and insertion at an index, and access cells of the vector only.
use cpp_db.Base.{
  ℕ, zero, suc, ◌≤◌, ◌<◌, ◌≡◌, refl, ap, ◌∙◌, List, [], ◌∷◌, ◌++◌, none, some, arith, length,
  get_elem?, set, remove_at, insert_at, length-set, lt→ltb, ltb, Bool-cases, Option-cases, inl, inr,
  ◌>>=◌, true, false,
}
use cpp_db.Core.Shift.{write_cell, copy_cell, pop_back, shift_left, erase, shift_right, shift_in}

module _ {ℓ} {A : Type ℓ} where
  write_cell-cons :
      (x : A) (xs : List A) (i : ℕ) (v : A) (w : List A)
      → write_cell xs i v ≡ some w
      → write_cell (x ∷ xs) (suc i) v ≡ some (x ∷ w)
  unfolding write_cell
  write_cell-cons x xs i v w e = elim (Bool-cases (ltb i (length xs))) [
    | inl l ↦
        let l' : ltb (suc i) (length (x ∷ xs)) ≡ true = ground arith in
        let u : set xs i v ≡ w = cc in rw (write_cell, l', u) refl
    | inr l ↦ cc
  ]

  copy_cell-cons :
      (x : A) (xs : List A) (i j : ℕ) (w : List A)
      → copy_cell xs i j ≡ some w
      → copy_cell (x ∷ xs) (suc i) (suc j) ≡ some (x ∷ w)
  unfolding copy_cell
  copy_cell-cons x xs i j w e = elim (Option-cases (get_elem? xs j)) [
    | inl g ↦ absurd (let n : none ≡ some w = (rw g at e) in cc)
    | inr (v, g) ↦ rw g (write_cell-cons x xs i v w (rw g at e))
  ]

  -- A round of the loop gives the list with the cell written.
  pub copy_cell-length :
      (xs : List A) (i j : ℕ) (w : List A) → copy_cell xs i j ≡ some w → length w ≡ length xs
  unfolding copy_cell write_cell
  copy_cell-length xs i j w e = elim (Option-cases (get_elem? xs j)) [
    | inl g ↦ absurd (let n : none ≡ some w = (rw g at e) in cc)
    | inr (v, g) ↦ elim (Bool-cases (ltb i (length xs))) [
      | inl l ↦
          let u : set xs i v ≡ w = (let k = (rw (g, l) at e) in cc) in rw (← u) (length-set xs i v)
      | inr l ↦ absurd (let n : none ≡ some w = (rw (g, l) at e) in cc)
    ]
  ]

  -- A round of the loop that ends with a list, from its test.
  pub shift_left-round :
      (f i : ℕ) (xs w : List A)
      → ltb (suc i) (length xs) ≡ true
      → shift_left (suc f) i xs ≡ some w
      → (ys : List A) × (copy_cell xs i (suc i) ≡ some ys) × (shift_left f (suc i) ys ≡ some w)
  unfolding shift_left
  shift_left-round f i xs w l e = elim (Option-cases (copy_cell xs i (suc i))) [
    | inl c ↦ absurd (let n : none ≡ some w = (rw (shift_left, l, c) at e) in cc)
    | inr (ys, c) ↦ (ys, c, rw (shift_left, l, c) at e)
  ]

  shift_left-cons :
      (f i : ℕ) (x : A) (xs w : List A)
      → shift_left f i xs ≡ some w
      → shift_left f (suc i) (x ∷ xs) ≡ some (x ∷ w)
  unfolding shift_left
  shift_left-cons zero i x xs w e = cc
  shift_left-cons (suc f) i x xs w e = elim (Bool-cases (ltb (suc i) (length xs))) [
    | inl l ↦
        let (ys, c, k) = shift_left-round f i xs w l e in
        let l' : ltb (suc (suc i)) (length (x ∷ xs)) ≡ true = ground arith in
        rw (shift_left, l', copy_cell-cons x xs i (suc i) ys c) (shift_left-cons f (suc i) x ys w k)
    | inr l ↦
        let l' : ltb (suc (suc i)) (length (x ∷ xs)) ≡ false = ground arith in
        let u : some xs ≡ some w = (rw (shift_left, l) at e) in
        rw (shift_left, l') (ap (λ o. o >>= λ ys. some (x ∷ ys)) u)
  ]

  last_of : A → List A → A
  last_of x [] = x
  last_of x (y ∷ ys) = last_of y ys

  -- From the first cell on, the loop leaves the other cells and a copy of the last one.
  shift_left_head :
      (f : ℕ) (x : A) (xs : List A)
      → length xs < f
      → shift_left f 0 (x ∷ xs) ≡ some (xs ++ last_of x xs ∷ [])
  unfolding shift_left last_of copy_cell write_cell
  shift_left_head zero x xs h = absurd (omega arith)
  shift_left_head (suc f) x [] h = refl
  shift_left_head (suc f) x (y ∷ ys) h =
      let l : ltb 1 (length (x ∷ y ∷ ys)) ≡ true = lt→ltb 1 (length (x ∷ y ∷ ys)) (omega arith) in
      let l0 : ltb 0 (length (x ∷ y ∷ ys)) ≡ true = lt→ltb 0 (length (x ∷ y ∷ ys)) (omega arith) in
      rw (shift_left, copy_cell, write_cell, l, l0)
        (shift_left-cons f 0 y (y ∷ ys) (ys ++ last_of y ys ∷ [])
          (shift_left_head f y ys (omega arith)))

  -- With more fuel than cells the loop ends, and leaves the list without the cell and one more at its end.
  pub shift_left-remove_at :
      (f i : ℕ) (xs : List A)
      → i < length xs
      → length xs ≤ f
      → (l : A) × (shift_left f i xs ≡ some (remove_at xs i ++ l ∷ []))
  shift_left-remove_at f i [] b h = absurd (omega arith)
  shift_left-remove_at f zero (x ∷ xs) b h = (last_of x xs, shift_left_head f x xs (omega arith))
  shift_left-remove_at f (suc i) (x ∷ xs) b h =
      let (l, e) = shift_left-remove_at f i xs (omega arith) (omega arith) in
      (l, shift_left-cons f i x xs (remove_at xs i ++ l ∷ []) e)

  pub pop_back-append : (xs : List A) (l : A) → pop_back (xs ++ l ∷ []) ≡ xs
  unfolding pop_back
  pop_back-append [] l = refl
  pop_back-append (x ∷ []) l = refl
  pop_back-append (x ∷ y ∷ ys) l = ap (◌∷◌ x) (pop_back-append (y ∷ ys) l)

  -- Shifting left and dropping the last cell ends without an access outside the vector, for every index
  -- below the size, removes the element at the index, and keeps the order of the others.
  pub erase-eq-remove_at :
      (xs : List A) (i : ℕ) → i < length xs → erase xs i ≡ some (remove_at xs i)
  unfolding erase
  erase-eq-remove_at xs i h =
      let (l, e) = shift_left-remove_at (suc (length xs)) i xs h (omega arith) in
      rw e (ap some (pop_back-append (remove_at xs i) l))

  shift_right-cons :
      (at i : ℕ) (x : A) (xs w : List A)
      → shift_right at i xs ≡ some w
      → shift_right (suc at) (suc i) (x ∷ xs) ≡ some (x ∷ w)
  unfolding shift_right
  shift_right-cons at zero x xs w e =
      let l : ltb (suc at) 1 ≡ false = ground arith in
      rw (shift_right, l) (ap (λ o. o >>= λ ys. some (x ∷ ys)) e)
  shift_right-cons at (suc i) x xs w e = elim (Bool-cases (ltb at (suc i))) [
    | inr l ↦
        let l' : ltb (suc at) (suc (suc i)) ≡ false = ground arith in
        let u : some xs ≡ some w = (rw (shift_right, l) at e) in
        rw (shift_right, l') (ap (λ o. o >>= λ ys. some (x ∷ ys)) u)
    | inl l ↦
        let l' : ltb (suc at) (suc (suc i)) ≡ true = ground arith in
        elim (Option-cases (copy_cell xs (suc i) i)) [
          | inl c ↦ absurd (let n : none ≡ some w = (rw (shift_right, l, c) at e) in cc)
          | inr (ys, c) ↦
              rw (shift_right, l', copy_cell-cons x xs (suc i) i ys c)
                (shift_right-cons at i x ys w (rw (shift_right, l, c) at e))
        ]
  ]

  shift_right_done : (i : ℕ) (ys : List A) → shift_right i i ys ≡ some ys
  unfolding shift_right
  shift_right_done zero ys = refl
  shift_right_done (suc i) ys =
      let l : ltb (suc i) (suc i) ≡ false = ground arith in rw (shift_right, l) refl

  -- The last round, on its own.
  shift_right_last :
      (at i : ℕ) (xs : List A)
      → at < i
      → shift_right at i xs ≡ (shift_right (suc at) i xs >>= λ ys. copy_cell ys (suc at) at)
  unfolding shift_right
  shift_right_last at zero xs h = absurd (omega arith)
  shift_right_last at (suc i) xs h =
      let l : ltb at (suc i) ≡ true = lt→ltb at (suc i) h in
      elim (Bool-cases (ltb (suc at) (suc i))) [
        | inl m ↦
            rw (shift_right, l, m)
              ((elim (copy_cell xs (suc i) i)
                as (λ o.
                  (o >>= λ ys. shift_right at i ys)
                  ≡ (o >>= λ ys. shift_right (suc at) i ys) >>= λ ys. copy_cell ys (suc at) at) [
                    | none ↦ refl
                    | some ys ↦ shift_right_last at i ys (ground arith)
                  ]))
        | inr m ↦
            let same : i ≡ at = ground arith in
            rw (shift_right, l, m, same)
              ((elim (copy_cell xs (suc at) at) as (λ o. (o >>= λ ys. shift_right at at ys) ≡ o) [
                | none ↦ refl
                | some ys ↦ shift_right_done at ys
              ]))
      ]

  -- Down to the first cell, the loop frees that cell for a value.
  shift_right_head :
      (n : ℕ) (xs : List A) (d : A)
      → length xs ≡ n
      → (h : A) × (shift_right 0 n (xs ++ d ∷ []) ≡ some (h ∷ xs))
  unfolding shift_right copy_cell write_cell
  shift_right_head zero [] d e = (d, refl)
  shift_right_head zero (x ∷ xs) d e = absurd (omega arith)
  shift_right_head (suc n) [] d e = absurd (omega arith)
  shift_right_head (suc n) (x ∷ xs) d e =
      let (h, k) = shift_right_head n xs d (omega arith) in
      let l : ltb 1 (length (x ∷ h ∷ xs)) ≡ true = lt→ltb 1 (length (x ∷ h ∷ xs)) (omega arith) in
      (
        x,
        shift_right_last 0 (suc n) (x ∷ (xs ++ d ∷ [])) (omega arith)
            ∙ ap (λ o. o >>= λ ys. copy_cell ys 1 0)
                (shift_right-cons 0 n x (xs ++ d ∷ []) (h ∷ xs) k)
            ∙ rw l refl,
      )

  -- The cell at the index is there behind the loop, and free.
  shift_right-insert_at :
      (at : ℕ) (xs : List A) (d v : A)
      → at ≤ length xs
      → (ys : List A) × (shift_right at (length xs) (xs ++ d ∷ []) ≡ some ys)
        × (write_cell ys at v ≡ some (insert_at xs at v))
  unfolding write_cell
  shift_right-insert_at zero xs d v h =
      let (first, e) = shift_right_head (length xs) xs d refl in
      let l : ltb 0 (length (first ∷ xs)) ≡ true = lt→ltb 0 (length (first ∷ xs)) (omega arith) in
      (first ∷ xs, e, rw l refl)
  shift_right-insert_at (suc at) [] d v h = absurd (omega arith)
  shift_right-insert_at (suc at) (x ∷ xs) d v h =
      let (ys, e, k) = shift_right-insert_at at xs d v (omega arith) in
      (
        x ∷ ys,
        shift_right-cons at (length xs) x (xs ++ d ∷ []) ys e,
        write_cell-cons x ys at v (insert_at xs at v) k,
      )

  -- Shifting the cells above an index to the right in a vector with a new cell at its end, and writing a
  -- value at the index, ends without an access outside the vector and inserts the value there.
  pub insert_at-shift_in :
      (xs : List A) (placeholder : A) (at : ℕ) (value : A)
      → at ≤ length xs
      → shift_in xs placeholder at value ≡ some (insert_at xs at value)
  unfolding shift_in
  insert_at-shift_in xs placeholder at value h =
      let (ys, e, k) = shift_right-insert_at at xs placeholder value h in rw e k
