-- ===== src/Storage/Index/Lookup.antt =====
-- What an index promises: a map from keys to row ids, read off the entries in order. `find`
-- implements it.
use cpp_db.Base.{
  ℕ, zero, suc, ◌<◌, ◌≡◌, ◌≢◌, refl, [], ◌∷◌, Option, none, some, ℤ, pos, negsuc, arith, length,
  get_or, Bool-cases, inl, inr, ◌==ℤ◌, ==ℤ_iff, ==ℤ_refl, get_elem?-get_or, if◌then◌else◌, ltb,
}
use cpp_db.Storage.Index.{Entries, find_pos, read_at_pos, find}
use cpp_db.Storage.Index.Search.{
  no_entry, key_at, IsSorted, All-key_at, Located, find_pos-Finds, Finds,
}

-- The row id of the first entry with the key.
unfoldable pub lookup : Entries → ℤ → Option ℕ
lookup [] key = none
lookup (e ∷ es) key = if e.key ==ℤ key then some e.row_id else lookup es key

pub lookup_absent :
    (es : Entries) (key : ℤ) → ((i : ℕ) → i < length es → key_at es i ≢ key) → lookup es key ≡ none
unfolding lookup
lookup_absent [] key h = refl
lookup_absent (e ∷ es) key h = ground (
  arith,
  ==ℤ_iff e.key key,
  h 0 (omega arith),
  lookup_absent es key (λ i b. h (suc i) (omega arith)),
)

pub lookup_at :
    (es : Entries) (at : ℕ)
    → IsSorted es
    → at < length es
    → lookup es (key_at es at) ≡ some (get_or es at no_entry).row_id
unfolding lookup
lookup_at [] at s b = absurd (omega arith)
lookup_at (e ∷ es) zero s b = rw (==ℤ_refl e.key)
lookup_at (e ∷ es) (suc at) s b =
    ground (arith, lookup_at es at s.1 (omega arith), All-key_at e.key es at s.0 (omega arith))

read_at_pos-lookup :
    (es : Entries) (key p : ℤ)
    → IsSorted es
    → Located es key p
    → read_at_pos es p ≡ some (lookup es key)
unfolding read_at_pos
read_at_pos-lookup es key (pos at) s (b, e) =
    ground (arith, get_elem?-get_or es at no_entry b, lookup_at es at s b)
read_at_pos-lookup es key (negsuc at) s (b, below, above) = rw (
    lookup_absent es key (λ i h e. elim (Bool-cases (ltb i at)) [
      | inl lt ↦ ground (arith, below i (ground arith))
      | inr ge ↦ ground (arith, above i (ground arith) h)
    ]))

-- On sorted entries `find` ends, reads inside the vector only, and reports the row id of the key's
-- entry exactly if there is one.
pub find-lookup : (es : Entries) (key : ℤ) → IsSorted es → find es key ≡ some (lookup es key)
unfolding find
find-lookup es key s =
    (elim (find_pos es key)
        as (λ o.
          Finds es key o
          → elim o [ none ↦ none | some p ↦ read_at_pos es p ] ≡ some (lookup es key)) [
            | none ↦ λ h. absurd h
            | some p ↦ λ h. read_at_pos-lookup es key p s h
          ])
      (find_pos-Finds es key s)
