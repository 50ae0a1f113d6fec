-- ===== src/Storage/Index/Remove.antt =====
-- `remove` (src/storage/index.cpp) keeps the order and takes one key out of the map.
use cpp_db.Base.{
  ℕ, zero, suc, ◌<◌, ◌≡◌, refl, Bool, true, false, [], ◌∷◌, Option, none, some, ℤ, pos, negsuc,
  ◌<ℤ◌, arith, length, remove_at, All, All-remove_at, Bool-cases, inl, inr, ltb, ◌==ℤ◌, ==ℤ_iff,
  if◌then◌else◌, Returns,
}
use cpp_db.Core.Shift.Laws.{erase-eq-remove_at}
use cpp_db.Storage.Index.{Entry, Entries, find_pos, remove_at_pos, remove}
use cpp_db.Storage.Index.Search.{key_at, IsSorted, All-key_at, Located, find_pos-Finds, Finds}
use cpp_db.Storage.Index.Lookup.{lookup, lookup_absent, lookup_at}

remove_at-IsSorted : (es : Entries) (at : ℕ) → IsSorted es → IsSorted (remove_at es at)
remove_at-IsSorted [] at s = tt
remove_at-IsSorted (e ∷ es) zero s = s.1
remove_at-IsSorted (e ∷ es) (suc at) s =
    (All-remove_at (λ (f : Entry). e.key <ℤ f.key) es at s.0, remove_at-IsSorted es at s.1)

All-absent : (k : ℤ) (es : Entries) → All (λ (f : Entry). k <ℤ f.key) es → lookup es k ≡ none
unfolding lookup
All-absent k [] h = refl
All-absent k (e ∷ es) h = ground (arith, All-absent k es h.1, h.0)

lookup-remove_at :
    (es : Entries) (at : ℕ) (j : ℤ)
    → IsSorted es
    → at < length es
    → lookup (remove_at es at) j ≡ (if key_at es at ==ℤ j then none else lookup es j)
unfolding lookup
lookup-remove_at [] at j s b = absurd (omega arith)
lookup-remove_at (e ∷ es) zero j s b = elim (Bool-cases (e.key ==ℤ j)) [
  | inl k ↦ rw (k, ← (==ℤ_iff e.key j).0 k) (All-absent e.key es s.0)
  | inr k ↦ rw k
]
lookup-remove_at (e ∷ es) (suc at) j s b =
    ground
      (arith, lookup-remove_at es at j s.1 (omega arith), All-key_at e.key es at s.0 (omega arith))

abbrev is_some {ℓ} : {A : Type ℓ} → Option A → Bool
is_some none = false
is_some (some a) = true

-- The entries are sorted, their map is the old one without the key, and the flag says whether the
-- key was there.
pub record Removed (es : Entries) (key : ℤ) (r : Entries × Bool) : Type 0 where
  pub sorted : IsSorted r.0
  pub at_key : (j : ℤ) → lookup r.0 j ≡ (if key ==ℤ j then none else lookup es j)
  pub reported : r.1 ≡ is_some (lookup es key)

remove_at_pos-Removed :
    (es : Entries) (key : ℤ) (p : ℤ)
    → IsSorted es
    → Located es key p
    → Returns (remove_at_pos es p) (Removed es key)
unfolding remove_at_pos
remove_at_pos-Removed es key (pos at) s (b, e) = rw (erase-eq-remove_at es at b) (record {
  sorted = remove_at-IsSorted es at s;
  at_key = λ j. rw (← e) (lookup-remove_at es at j s b);
  reported = rw (← e, lookup_at es at s b);
})
remove_at_pos-Removed es key (negsuc at) s (b, below, above) =
    let absent : lookup es key ≡ none = lookup_absent es key (λ i h e.
      elim (Bool-cases (ltb i at)) [
        | inl lt ↦ ground (arith, below i (ground arith))
        | inr ge ↦ ground (arith, above i (ground arith) h)
      ]) in
    record {
      sorted = s;
      at_key = λ j. elim (Bool-cases (key ==ℤ j)) [
        | inl k ↦ rw (k, ← (==ℤ_iff key j).0 k) absent
        | inr k ↦ rw k
      ];
      reported = rw absent;
    }

-- On sorted entries `remove` ends, reads and writes inside the vector only, leaves sorted entries whose map has
-- lost the key and is unchanged at every other key, and returns whether the key was there.
pub remove-Removed :
    (es : Entries) (key : ℤ) → IsSorted es → Returns (remove es key) (Removed es key)
unfolding remove
remove-Removed es key s =
    (elim (find_pos es key)
        as (λ o.
          Finds es key o
          → Returns (elim o [ none ↦ none | some p ↦ remove_at_pos es p ]) (Removed es key)) [
            | none ↦ λ h. absurd h
            | some p ↦ λ h. remove_at_pos-Removed es key p s h
          ])
      (find_pos-Finds es key s)
