-- ===== src/Storage/Index.antt =====
-- src/storage/index.hpp and index.cpp: the primary-key index, a vector of entries sorted by key that
-- is searched by halving.
pub mod Search
pub mod Lookup
pub mod Insert
pub mod Remove
use cpp_db.Base.{
  ℕ, zero, suc, ◌+◌, ◌-◌, ◌>>=◌, ◌/◌, Bool, true, false, List, [], ◌∷◌, ◌++◌, Option, none, some, ℤ,
  pos, negsuc, ltb, ltb_ℤ, ◌==ℤ◌, if◌then◌else◌, length, get_elem?, set,
}
use cpp_db.Core.Shift.{erase, shift_in, write_cell}

-- `Index::Entry`. The row id is a row's position, which is never negative.
pub record Entry : Type 0 where
  pub key : ℤ
  pub row_id : ℕ

-- `Index`, by its one field `_entries`.
abbrev pub Entries : Type 0
Entries = List Entry

-- The loop of `_find_pos`, with fuel. `hi` holds the source's `hi + 1`, which is never negative:
-- `lo <= hi` is `ltb lo hi` here, and `hi = mid - 1` is `mid`. A read outside the vector is `none`,
-- and so is the end of the fuel.
unfoldable pub find_loop : ℕ → Entries → ℤ → ℕ → ℕ → Option ℤ
find_loop zero es key lo hi = none
find_loop (suc f) es key lo hi =
    if ltb lo hi
    then (let mid = lo + (hi - 1 - lo) / 2 in
        elim (get_elem? es mid) [
          | none ↦ none
          | some e ↦ elim (e.key ==ℤ key) [
            | true ↦ some (pos mid)
            | false ↦ elim (ltb_ℤ e.key key) [
              | true ↦ find_loop f es key (mid + 1) hi
              | false ↦ find_loop f es key lo mid
            ]
          ]
        ])
    else some (negsuc lo)

-- `_find_pos`: the position of the key, or `~` of the place where it belongs. Each round narrows the
-- range, so the size and one more are fuel enough.
unfoldable pub find_pos : Entries → ℤ → Option ℤ
unfolding find_loop
find_pos [] key = some (negsuc 0)
find_pos (e ∷ es) key = find_loop (suc (length (e ∷ es))) (e ∷ es) key 0 (length (e ∷ es))

-- `_entries[at].row_id = row_id`
unfoldable pub set_row_id : Entries → ℕ → ℕ → Option Entries
unfolding write_cell
set_row_id es at row_id = get_elem? es at >>= λ e. write_cell es at (record e { row_id = row_id })

-- What `insert` does with the position found.
unfoldable pub insert_at_pos : Entries → ℤ → ℕ → ℤ → Option Entries
unfolding set_row_id shift_in
insert_at_pos es key row_id (pos at) = set_row_id es at row_id
insert_at_pos es key row_id (negsuc at) =
    if ltb at (length es)
    then shift_in es (record { key = pos 0; row_id = 0 }) at (record { key = key; row_id = row_id })
    else some (es ++ record { key = key; row_id = row_id } ∷ [])

-- `insert`. `none` is an access outside the vector, or a search that does not end.
unfoldable pub insert : Entries → ℤ → ℕ → Option Entries
unfolding find_pos insert_at_pos
insert es key row_id = elim (find_pos es key) [
  | none ↦ none
  | some p ↦ insert_at_pos es key row_id p
]

-- What `find` reads at the position found: nothing, or the row id.
unfoldable pub read_at_pos : Entries → ℤ → Option (Option ℕ)
read_at_pos es (pos at) = elim (get_elem? es at) [ none ↦ none | some e ↦ some (some e.row_id) ]
read_at_pos es (negsuc at) = some none

-- `find`: `some none` is the result `false`, `some (some r)` is `true` with `row_id` set to `r`.
unfoldable pub find : Entries → ℤ → Option (Option ℕ)
unfolding find_pos read_at_pos
find es key = elim (find_pos es key) [ none ↦ none | some p ↦ read_at_pos es p ]

unfoldable pub remove_at_pos : Entries → ℤ → Option (Entries × Bool)
unfolding erase
remove_at_pos es (pos at) = erase es at >>= λ es'. some (es', true)
remove_at_pos es (negsuc at) = some (es, false)

-- `remove`: the new entries, and whether the key was there.
unfoldable pub remove : Entries → ℤ → Option (Entries × Bool)
unfolding find_pos remove_at_pos
remove es key = elim (find_pos es key) [ none ↦ none | some p ↦ remove_at_pos es p ]

-- `clear`
abbrev pub clear : Entries → Entries
clear es = []
