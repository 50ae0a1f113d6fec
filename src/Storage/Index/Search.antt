-- ===== src/Storage/Index/Search.antt =====
-- The binary search of `_find_pos` (src/storage/index.cpp) on sorted entries.
use cpp_db.Base.{
  ℕ, zero, suc, ◌+◌, ◌-◌, ◌/◌, ◌≤◌, ◌<◌, ◌≡◌, [], ◌∷◌, Option, none, some, ℤ, pos, negsuc, ◌<ℤ◌,
  arith, length, get_or, All, Bool-cases, inl, inr, ltb, ltb_ℤ, ◌==ℤ◌, ==ℤ_iff, get_elem?-get_or,
}
use cpp_db.Storage.Index.{Entry, Entries, find_loop, find_pos}

-- What a read outside the entries gives in statements; every use stands under a bound.
abbrev pub no_entry : Entry
no_entry = record { key = pos 0; row_id = 0 }

abbrev pub key_at : Entries → ℕ → ℤ
key_at es i = (get_or es i no_entry).key

-- The keys ascend strictly, so no key occurs twice.
abbrev pub IsSorted : Entries → Type 0
IsSorted [] = Unit
IsSorted (e ∷ es) = All (λ (f : Entry). e.key <ℤ f.key) es × IsSorted es

pub All-key_at :
    (k : ℤ) (es : Entries) (j : ℕ)
    → All (λ (f : Entry). k <ℤ f.key) es
    → j < length es
    → k <ℤ key_at es j
All-key_at k [] j h b = absurd (omega arith)
All-key_at k (e ∷ es) zero h b = h.0
All-key_at k (e ∷ es) (suc j) h b = All-key_at k es j h.1 (omega arith)

pub key_at_mono :
    (es : Entries) (i j : ℕ) → IsSorted es → i < j → j < length es → key_at es i <ℤ key_at es j
key_at_mono [] i j s h b = absurd (omega arith)
key_at_mono (e ∷ es) i zero s h b = absurd (omega arith)
key_at_mono (e ∷ es) zero (suc j) s h b = All-key_at e.key es j s.0 (omega arith)
key_at_mono (e ∷ es) (suc i) (suc j) s h b = key_at_mono es i j s.1 (omega arith) (omega arith)

-- A position answers for a key: the key stands there, or the key is absent and the position is
-- `~at` for the one place that keeps the order.
abbrev pub Located : Entries → ℤ → ℤ → Type 0
Located es key (pos at) = (at < length es) × (key_at es at ≡ key)
Located es key (negsuc at) =
    (at ≤ length es)
    × ((i : ℕ) → i < at → key_at es i <ℤ key)
    × ((i : ℕ) → at ≤ i → i < length es → key <ℤ key_at es i)

-- A search ends, reads inside the vector only, and its answer is right.
abbrev pub Finds : Entries → ℤ → Option ℤ → Type 0
Finds es key none = ⊥
Finds es key (some p) = Located es key p

module _ (es : Entries) (key : ℤ) (sorted : IsSorted es) where
  below_mid : (m i : ℕ) → m < length es → key_at es m <ℤ key → i < m + 1 → key_at es i <ℤ key
  below_mid m i b c h = elim (Bool-cases (ltb i m)) [
    | inl lt ↦ ground (arith, key_at_mono es i m sorted)
    | inr ge ↦ let e : i ≡ m = ground arith in rw e c
  ]

  above_mid : (m i : ℕ) → i < length es → key <ℤ key_at es m → m ≤ i → key <ℤ key_at es i
  above_mid m i b c h = elim (Bool-cases (ltb m i)) [
    | inl lt ↦ ground (arith, key_at_mono es m i sorted)
    | inr ge ↦ let e : i ≡ m = ground arith in rw e c
  ]

  find_loop-Finds :
      (f lo hi : ℕ)
      → lo ≤ hi
      → hi ≤ length es
      → hi - lo < f
      → ((i : ℕ) → i < lo → key_at es i <ℤ key)
      → ((i : ℕ) → hi ≤ i → i < length es → key <ℤ key_at es i)
      → Finds es key (find_loop f es key lo hi)
  unfolding find_loop
  find_loop-Finds zero lo hi o b w below above = absurd (omega arith)
  find_loop-Finds (suc f) lo hi o b w below above = elim (Bool-cases (ltb lo hi)) [
    | inr e ↦ rw e ((omega arith, below, λ i p q. above i (ground arith) q))
    | inl e ↦
        let m : ℕ = lo + (hi - 1 - lo) / 2 in
        let lt : lo < hi = ground arith in
        let mb : m < hi = omega arith in
        rw (e, get_elem?-get_or es m no_entry (omega arith))
          (elim (Bool-cases (key_at es m ==ℤ key)) [
            | inl k ↦ rw k ((omega arith, (==ℤ_iff _ _).0 k))
            | inr k ↦ elim (Bool-cases (ltb_ℤ (key_at es m) key)) [
              | inl c ↦
                  rw (k, c)
                    (find_loop-Finds f (m + 1) hi (omega arith) b (omega arith)
                      (λ i. below_mid m i (omega arith) (ground arith)) above)
              | inr c ↦
                  rw (k, c)
                    (find_loop-Finds f lo m (omega arith) (omega arith) (omega arith) below
                      (λ i p q. above_mid m i q (ground arith) p))
            ]
          ])
  ]

-- On sorted entries `_find_pos` ends and returns the key's position, or `~` of the place where the
-- key belongs: every key before that place is smaller, and every key from it on is greater.
pub find_pos-Finds : (es : Entries) (key : ℤ) → IsSorted es → Finds es key (find_pos es key)
unfolding find_pos
find_pos-Finds [] key s = (omega arith, λ i h. absurd (omega arith), λ i h b. absurd (omega arith))
find_pos-Finds (e ∷ es) key s =
    find_loop-Finds (e ∷ es) key s (suc (length (e ∷ es))) 0 (length (e ∷ es)) (omega arith)
      (omega arith) (omega arith) (λ i h. absurd (omega arith)) (λ i h b. absurd (omega arith))
