-- ===== src/Storage/Database/View.antt =====
-- A database as a map from table names to a table and its index, read off the three vectors.
use cpp_db.Base.{
  ℕ, zero, suc, ◌≡◌, ◌≢◌, refl, List, [], ◌∷◌, ◌++◌, Option, none, some, Bytes, str_eq, str_eq_iff,
  arith, get_elem?, set, remove_at, All, Bool-cases, inl, inr, All-get, subst, if◌then◌else◌,
}
use cpp_db.Storage.Table.{Table}
use cpp_db.Storage.Index.{Entries}
use cpp_db.Storage.Database.{Database}
use cpp_db.Storage.Database.Slots.{Aligned, Distinct}

-- The vectors are aligned, and no two tables share a name.
pub record IsValid (P : Table → Entries → Type 0) (db : Database) : Type 0 where
  pub aligned : Aligned P db.table_names db.tables db.indexes
  pub distinct : Distinct db.table_names

-- The table and the index of the first slot with the name.
abbrev pub view : List Bytes → List Table → List Entries → Bytes → Option (Table × Entries)
view (n ∷ ns) (t ∷ ts) (e ∷ es) m = if str_eq n m then some (t, e) else view ns ts es m
view _ _ _ m = none

abbrev pub table_of : Database → Bytes → Option (Table × Entries)
table_of db m = view db.table_names db.tables db.indexes m

module _ (P : Table → Entries → Type 0) where
  pub view-append :
      (ns : List Bytes) (ts : List Table) (es : List Entries) (name : Bytes) (t : Table)
      (e : Entries) (m : Bytes)
      → Aligned P ns ts es
      → All (λ n. n ≢ name) ns
      → view (ns ++ name ∷ []) (ts ++ t ∷ []) (es ++ e ∷ []) m
        ≡ (if str_eq name m then some (t, e) else view ns ts es m)
  view-append [] [] [] name t e m a h = refl
  view-append (n ∷ ns) (t' ∷ ts) (e' ∷ es) name t e m (_, _, a) (h, hs) =
      ground (arith, str_eq_iff n m, str_eq_iff name m, view-append ns ts es name t e m a hs, h)
  view-append _ _ _ name t e m a h = absurd a

  pub view_absent :
      (ns : List Bytes) (ts : List Table) (es : List Entries) (m : Bytes)
      → Aligned P ns ts es
      → All (λ n. n ≢ m) ns
      → view ns ts es m ≡ none
  view_absent [] [] [] m a h = refl
  view_absent (n ∷ ns) (t ∷ ts) (e ∷ es) m (_, _, a) (h, hs) =
      ground (arith, str_eq_iff n m, view_absent ns ts es m a hs, h)
  view_absent _ _ _ m a h = absurd a

  pub view-remove_at :
      (ns : List Bytes) (ts : List Table) (es : List Entries) (i : ℕ) (name m : Bytes)
      → Aligned P ns ts es
      → Distinct ns
      → get_elem? ns i ≡ some name
      → view (remove_at ns i) (remove_at ts i) (remove_at es i) m
        ≡ (if str_eq name m then none else view ns ts es m)
  view-remove_at [] [] [] i name m a d g = cc
  view-remove_at (n ∷ ns) (t ∷ ts) (e ∷ es) zero name m (_, _, a) (h, d) g =
      elim (Bool-cases (str_eq name m)) [
        | inl k ↦
            let same : n ≡ m = ground (arith, str_eq_iff name m) in
            rw k (view_absent ns ts es m a (subst (λ x. All (λ y. y ≢ x) ns) same h))
        | inr k ↦ ground (arith, str_eq_iff n m, str_eq_iff name m)
      ]
  view-remove_at (n ∷ ns) (t ∷ ts) (e ∷ es) (suc i) name m (_, _, a) (h, d) g = ground (
    arith,
    view-remove_at ns ts es i name m a d g,
    str_eq_iff n m,
    str_eq_iff name m,
    All-get (λ y. y ≢ n) ns i h g,
  )
  view-remove_at _ _ _ i name m a d g = absurd a

  -- The slot at a name's position is the name's slot.
  pub view_at :
      (ns : List Bytes) (ts : List Table) (es : List Entries) (i : ℕ) (name : Bytes) (t : Table)
      (e : Entries)
      → Aligned P ns ts es
      → Distinct ns
      → get_elem? ns i ≡ some name
      → get_elem? ts i ≡ some t
      → get_elem? es i ≡ some e
      → view ns ts es name ≡ some (t, e)
  view_at [] [] [] i name t e a d g gt ge = cc
  view_at (n ∷ ns) (t' ∷ ts) (e' ∷ es) zero name t e (_, _, a) (h, d) g gt ge =
      ground (arith, str_eq_iff n name)
  view_at (n ∷ ns) (t' ∷ ts) (e' ∷ es) (suc i) name t e (_, _, a) (h, d) g gt ge = ground (
    arith,
    view_at ns ts es i name t e a d g gt ge,
    str_eq_iff n name,
    All-get (λ y. y ≢ n) ns i h g,
  )
  view_at _ _ _ i name t e a d g gt ge = absurd a

  pub view-set :
      (ns : List Bytes) (ts : List Table) (es : List Entries) (i : ℕ) (name m : Bytes) (t : Table)
      (e : Entries)
      → Aligned P ns ts es
      → Distinct ns
      → get_elem? ns i ≡ some name
      → view ns (set ts i t) (set es i e) m
        ≡ (if str_eq name m then some (t, e) else view ns ts es m)
  view-set [] [] [] i name m t e a d g = cc
  view-set (n ∷ ns) (t' ∷ ts) (e' ∷ es) zero name m t e (_, _, a) (h, d) g =
      ground (arith, str_eq_iff n m, str_eq_iff name m)
  view-set (n ∷ ns) (t' ∷ ts) (e' ∷ es) (suc i) name m t e (_, _, a) (h, d) g = ground (
    arith,
    view-set ns ts es i name m t e a d g,
    str_eq_iff n m,
    str_eq_iff name m,
    All-get (λ y. y ≢ n) ns i h g,
  )
  view-set _ _ _ i name m t e a d g = absurd a
