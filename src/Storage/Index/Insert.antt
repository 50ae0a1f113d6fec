-- ===== src/Storage/Index/Insert.antt =====
-- `insert` (src/storage/index.cpp) keeps the order and sets one key of the map.
use cpp_db.Base.{
  get_elem?, get_elem?-get_or, get_or, lt→ltb, set, true, ℕ, zero, suc, ◌≤◌, ◌<◌, ◌≡◌, refl, ap,
  List, [], ◌∷◌, ◌++◌, none, some, ℤ, pos, negsuc, ◌<ℤ◌, arith, length, insert_at, All, Bool-cases,
  inl, inr, ltb, ◌==ℤ◌, if◌then◌else◌, Returns,
}
use cpp_db.Core.Shift.{write_cell}
use cpp_db.Core.Shift.Laws.{insert_at-shift_in}
use cpp_db.Storage.Index.{Entry, Entries, find_pos, set_row_id, insert_at_pos, insert}
use cpp_db.Storage.Index.Search.{key_at, IsSorted, All-key_at, Located, find_pos-Finds, Finds}
use cpp_db.Storage.Index.Lookup.{lookup}

insert_at_end {ℓ} : {A : Type ℓ} (xs : List A) (v : A) → xs ++ v ∷ [] ≡ insert_at xs (length xs) v
insert_at_end [] v = refl
insert_at_end (x ∷ xs) v = ap (◌∷◌ x) (insert_at_end xs v)

-- At `~at` the entry is put in at `at`, whichever branch the code takes.
insert_at_pos-insert_at :
    (es : Entries) (key : ℤ) (row_id at : ℕ)
    → at ≤ length es
    → insert_at_pos es key row_id (negsuc at)
      ≡ some (insert_at es at (record { key = key; row_id = row_id }))
unfolding insert_at_pos
insert_at_pos-insert_at es key row_id at b = elim (Bool-cases (ltb at (length es))) [
  | inl e ↦ rw e (insert_at-shift_in es _ at _ b)
  | inr e ↦ let e' : at ≡ length es = ground arith in rw (e, e') (ap some (insert_at_end es _))
]

All-insert_at {ℓ κ} :
    {A : Type ℓ} (P : A → Type κ) (xs : List A) (i : ℕ) (v : A)
    → P v
    → All P xs
    → All P (insert_at xs i v)
All-insert_at P xs zero v p h = (p, h)
All-insert_at P [] (suc i) v p h = (p, tt)
All-insert_at P (x ∷ xs) (suc i) v p h = (h.0, All-insert_at P xs i v p h.1)

All-of_key_at :
    (k : ℤ) (es : Entries)
    → ((i : ℕ) → i < length es → k <ℤ key_at es i)
    → All (λ (f : Entry). k <ℤ f.key) es
All-of_key_at k [] h = tt
All-of_key_at k (e ∷ es) h =
    (h 0 (omega arith), All-of_key_at k es (λ i b. h (suc i) (omega arith)))

insert_at-IsSorted :
    (es : Entries) (at : ℕ) (v : Entry)
    → IsSorted es
    → at ≤ length es
    → ((i : ℕ) → i < at → key_at es i <ℤ v.key)
    → ((i : ℕ) → at ≤ i → i < length es → v.key <ℤ key_at es i)
    → IsSorted (insert_at es at v)
insert_at-IsSorted es zero v s b below above =
    (All-of_key_at v.key es (λ i h. above i (omega arith) h), s)
insert_at-IsSorted [] (suc at) v s b below above = absurd (omega arith)
insert_at-IsSorted (e ∷ es) (suc at) v s b below above = (
  All-insert_at (λ (f : Entry). e.key <ℤ f.key) es at v (below 0 (omega arith)) s.0,
  insert_at-IsSorted es at v s.1 (omega arith) (λ i h. below (suc i) (omega arith))
      (λ i p q. above (suc i) (omega arith) (omega arith)),
)

lookup-insert_at :
    (es : Entries) (at : ℕ) (v : Entry) (j : ℤ)
    → at ≤ length es
    → ((i : ℕ) → i < at → key_at es i <ℤ v.key)
    → lookup (insert_at es at v) j ≡ (if v.key ==ℤ j then some v.row_id else lookup es j)
unfolding lookup
lookup-insert_at es zero v j b below = refl
lookup-insert_at [] (suc at) v j b below = absurd (omega arith)
lookup-insert_at (e ∷ es) (suc at) v j b below = ground (
  arith,
  lookup-insert_at es at v j (omega arith) (λ i h. below (suc i) (omega arith)),
  below 0 (omega arith),
)

-- The entries with one row id set.
abbrev with_row_id : Entries → ℕ → ℕ → Entries
with_row_id es at row_id = elim (get_elem? es at) [
  | none ↦ es
  | some e ↦ set es at (record e { row_id = row_id })
]

with_row_id-cons :
    (e : Entry) (es : Entries) (at row_id : ℕ)
    → with_row_id (e ∷ es) (suc at) row_id ≡ e ∷ with_row_id es at row_id
with_row_id-cons e es at row_id = ground arith

All-with_row_id :
    (k : ℤ) (es : Entries) (at row_id : ℕ)
    → All (λ (f : Entry). k <ℤ f.key) es
    → All (λ (f : Entry). k <ℤ f.key) (with_row_id es at row_id)
All-with_row_id k [] at row_id h = tt
All-with_row_id k (e ∷ es) zero row_id h = h
All-with_row_id k (e ∷ es) (suc at) row_id h =
    rw (with_row_id-cons e es at row_id) ((h.0, All-with_row_id k es at row_id h.1))

with_row_id-IsSorted :
    (es : Entries) (at row_id : ℕ) → IsSorted es → IsSorted (with_row_id es at row_id)
with_row_id-IsSorted [] at row_id s = tt
with_row_id-IsSorted (e ∷ es) zero row_id s = s
with_row_id-IsSorted (e ∷ es) (suc at) row_id s =
    rw (with_row_id-cons e es at row_id)
      ((All-with_row_id e.key es at row_id s.0, with_row_id-IsSorted es at row_id s.1))

lookup-with_row_id :
    (es : Entries) (at row_id : ℕ) (j : ℤ)
    → IsSorted es
    → at < length es
    → lookup (with_row_id es at row_id) j
      ≡ (if key_at es at ==ℤ j then some row_id else lookup es j)
unfolding lookup
lookup-with_row_id [] at row_id j s b = absurd (omega arith)
lookup-with_row_id (e ∷ es) zero row_id j s b = ground arith
lookup-with_row_id (e ∷ es) (suc at) row_id j s b = rw (with_row_id-cons e es at row_id) (
    ground (
      arith,
      lookup-with_row_id es at row_id j s.1 (omega arith),
      All-key_at e.key es at s.0 (omega arith),
    ))

-- Below the size the write is one to an entry.
set_row_id-with_row_id :
    (es : Entries) (at row_id : ℕ)
    → at < length es
    → set_row_id es at row_id ≡ some (with_row_id es at row_id)
unfolding set_row_id write_cell
set_row_id-with_row_id es at row_id b =
    let none_entry : Entry = record { key = pos 0; row_id = 0 } in
    let g : get_elem? es at ≡ some (get_or es at none_entry) =
      get_elem?-get_or es at none_entry b in
    let l : ltb at (length es) ≡ true = lt→ltb at (length es) b in
    rw (set_row_id, with_row_id, g, l) refl

-- The entries are sorted, and their map is the old one with the key set to the row id.
pub record Inserted (es : Entries) (key : ℤ) (row_id : ℕ) (es' : Entries) : Type 0 where
  pub sorted : IsSorted es'
  pub at_key : (j : ℤ) → lookup es' j ≡ (if key ==ℤ j then some row_id else lookup es j)

insert_at_pos-Inserted :
    (es : Entries) (key : ℤ) (row_id : ℕ) (p : ℤ)
    → IsSorted es
    → Located es key p
    → Returns (insert_at_pos es key row_id p) (Inserted es key row_id)
unfolding insert_at_pos
insert_at_pos-Inserted es key row_id (pos at) s (b, e) =
    rw (set_row_id-with_row_id es at row_id b) (record {
      sorted = with_row_id-IsSorted es at row_id s;
      at_key = λ j. rw (← e) (lookup-with_row_id es at row_id j s b);
    })
insert_at_pos-Inserted es key row_id (negsuc at) s (b, below, above) =
    rw (insert_at_pos-insert_at es key row_id at b) (record {
      sorted = insert_at-IsSorted es at _ s b below above;
      at_key = λ j. lookup-insert_at es at _ j b below;
    })

-- On sorted entries `insert` ends, reads and writes inside the vector only, and leaves sorted entries whose map
-- has the new row id at the key and is unchanged at every other key, whether or not the key was there.
pub insert-Inserted :
    (es : Entries) (key : ℤ) (row_id : ℕ)
    → IsSorted es
    → Returns (insert es key row_id) (Inserted es key row_id)
unfolding insert
insert-Inserted es key row_id s =
    (elim (find_pos es key)
        as (λ o.
          Finds es key o
          → Returns (elim o [ none ↦ none | some p ↦ insert_at_pos es key row_id p ])
              (Inserted es key row_id)) [
                | none ↦ λ h. absurd h
                | some p ↦ λ h. insert_at_pos-Inserted es key row_id p s h
              ])
      (find_pos-Finds es key s)
