-- ===== src/Tests/CoreTests.antt =====
-- Tests of src/core: the shifting loops, vectors and strings.
use cpp_db.Core.Places.{moved, update}
use cpp_db.Base.{
  ◌>>=◌, Bytes, Returns, codes, inl, str_eq, true, List, Option, none, some, ℕ, [], arith,
  insert_at, refl, remove_at, ◌++◌, ◌∷◌, ◌≡◌,
}
use cpp_db.Core.Shift.{copy_cell, erase, shift_in}
use cpp_db.Core.Shift.Laws.{erase-eq-remove_at, insert_at-shift_in}
use cpp_db.Core.Vector.Refines.{Leaves, Holds, push_back-Leaves}
use cpp_db.Core.Vector.{
  clear_vector, destroy, fill_default, index, sized_vector, Vector, empty_vector, push_back, write,
}
use cpp_db.Core.Strings.{
  Memory, assign_copy, assign_move, assign_text, construct_bytes, equals, null_string,
}
use cpp_db.Core.Strings.Texts.{Models, construct_bytes-Models}
use cpp_db.Core.Strings.Assign.{assign_copy-Models, assign_move-Models}
use cpp_db.Core.Strings.Compare.{equals-str_eq}
use cpp_db.Core.Vector.Assign.{assign_moved}

erase_runs : erase {A = ℕ} (1 ∷ 2 ∷ 3 ∷ []) 1 ≡ some (1 ∷ 3 ∷ [])
unfolding erase
erase_runs = refl

-- A round at the last cell would read behind the vector.
copy_behind_runs : copy_cell {A = ℕ} (1 ∷ 2 ∷ 3 ∷ []) 2 3 ≡ none
unfolding copy_cell
copy_behind_runs = refl

erase-eq-remove_at_example :
    erase {A = ℕ} (1 ∷ 2 ∷ 3 ∷ []) 1 ≡ some (remove_at {A = ℕ} (1 ∷ 2 ∷ 3 ∷ []) 1)
erase-eq-remove_at_example = erase-eq-remove_at {A = ℕ} (1 ∷ 2 ∷ 3 ∷ []) 1 (omega arith)

insert_at-shift_in_example :
    shift_in {A = ℕ} (1 ∷ 2 ∷ 3 ∷ []) 0 1 7 ≡ some (insert_at {A = ℕ} (1 ∷ 2 ∷ 3 ∷ []) 1 7)
insert_at-shift_in_example = insert_at-shift_in {A = ℕ} (1 ∷ 2 ∷ 3 ∷ []) 0 1 7 (omega arith)

-- A vector of one element, and the vector of nine that has grown twice.
abbrev pushed : Option (Vector ℕ) → List ℕ → Option (Vector ℕ)
pushed none xs = none
pushed (some v) [] = some v
pushed (some v) (x ∷ xs) = pushed (push_back v x) xs

abbrev shape : Option (Vector ℕ) → Option (ℕ × ℕ × Option ℕ)
shape none = none
shape (some v) = some (v.size, v.capacity, v.cells 8)

push_back_runs :
    shape (pushed (some empty_vector) (1 ∷ 2 ∷ 3 ∷ 4 ∷ 5 ∷ 6 ∷ 7 ∷ 8 ∷ 9 ∷ []))
    ≡ some (9, 16, some 9)
unfolding push_back
push_back_runs = refl

empty_vector-Holds : Holds {A = ℕ} empty_vector []
empty_vector-Holds = record {
  held = λ i lt. absurd (omega arith);
  count = refl;
  fits = omega arith;
}

abbrev one_vector : Vector ℕ
one_vector = record { cells = write (λ i. none) 0 (some 5); size = 1; capacity = 8 }

one_vector-Holds : Holds one_vector (5 ∷ [])
one_vector-Holds = record {
  held = λ i lt. let e : i ≡ 0 = omega arith in rw e refl;
  count = refl;
  fits = omega arith;
}

push_back-Leaves_example : Leaves (push_back one_vector 7) ((5 ∷ []) ++ 7 ∷ [])
push_back-Leaves_example = push_back-Leaves one_vector (5 ∷ []) 7 one_vector-Holds

-- A memory with one string, and nothing in the other objects.
abbrev fresh_memory : Memory
fresh_memory = record { objects = λ o. null_string; blocks = λ a. none; next = 0 }

fresh_memory-Models : Models fresh_memory (λ o. [])
fresh_memory-Models = record {
  texts = λ o. record { counted = refl; stored = inl (refl, refl) };
  apart = λ o p a e f. cc;
}

abbrev one_string : Memory
one_string = construct_bytes 0 (codes "ab") fresh_memory

abbrev one_text : ℕ → Bytes
one_text = update (λ o. []) 0 (codes "ab")

one_string-Models : Models one_string one_text
one_string-Models = construct_bytes-Models fresh_memory (λ o. []) 0 (codes "ab") fresh_memory-Models

assign_copy-Models_example :
    Returns (assign_copy 1 0 one_string) (λ m. Models m (update one_text 1 (codes "ab")))
assign_copy-Models_example = assign_copy-Models one_string one_text 1 0 one_string-Models

assign_move-Models_example :
    Returns (assign_move 1 0 one_string) (λ m. Models m (moved one_text 1 0))
assign_move-Models_example = assign_move-Models one_string one_text 1 0 one_string-Models

equals-str_eq_example : equals 0 1 one_string ≡ some (str_eq (codes "ab") [])
equals-str_eq_example = equals-str_eq one_string one_text 0 1 one_string-Models

copied_runs : (assign_copy 1 0 one_string >>= λ m. equals 0 1 m) ≡ some true
unfolding assign_copy equals construct_bytes
copied_runs = refl

-- A string that was moved away is empty, and can be assigned to again.
moved_runs :
    (assign_move 1 0 one_string >>= λ m. assign_text 0 (some (codes "ab")) m >>= λ n. equals 0 1 n)
    ≡ some true
unfolding assign_move assign_text equals construct_bytes
moved_runs = refl

-- A vector of three objects as its constructor makes them.
abbrev three_sevens : Vector ℕ
three_sevens = sized_vector 7 3

sized_runs : index three_sevens 2 ≡ some 7
unfolding index sized_vector fill_default
sized_runs = refl

-- A vector that is moved into another leaves nothing behind, and the cells are now the other one's.
abbrev exchanged : Option (ℕ → Vector ℕ)
exchanged = assign_moved 1 0 (update (λ o. empty_vector) 0 three_sevens)

vector_moved_runs : (exchanged >>= λ objects. index (objects 1) 2) ≡ some 7
unfolding assign_moved index sized_vector fill_default clear_vector destroy
vector_moved_runs = refl

vector_left_runs : (exchanged >>= λ objects. some ((objects 0).size)) ≡ some 0
unfolding assign_moved sized_vector fill_default clear_vector destroy
vector_left_runs = refl
