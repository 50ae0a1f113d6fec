-- ===== src/Storage/Database/Slots.antt =====
-- The three parallel vectors of a database: position by position a name, the table with that name
-- and its index.
use cpp_db.Base.{
  ℕ, zero, suc, ◌+◌, ◌≡◌, ◌≢◌, refl, ap, List, [], ◌∷◌, ◌++◌, Option, none, some, Bytes, str_eq,
  str_eq_iff, arith, length, get_elem?, set, remove_at, All, Bool-cases, inl, inr, All-append,
  All-remove_at,
}
use cpp_db.Storage.Table.{Table}
use cpp_db.Storage.Index.{Entries}
use cpp_db.Storage.Database.{find_slot_from}

-- The vectors have one length, every table stands under its name, and each table and its index
-- satisfy the predicate.
abbrev pub Aligned : (Table → Entries → Type 0) → List Bytes → List Table → List Entries → Type 0
Aligned P [] [] [] = Unit
Aligned P (n ∷ ns) (t ∷ ts) (e ∷ es) = (t.name ≡ n) × P t e × Aligned P ns ts es
Aligned P _ _ _ = ⊥

-- No name occurs twice.
abbrev pub Distinct : List Bytes → Type 0
Distinct [] = Unit
Distinct (n ∷ ns) = All (λ m. m ≢ n) ns × Distinct ns

-- The position answers for the name.
abbrev pub FirstSlot : List Bytes → Bytes → Option ℕ → Type 0
FirstSlot ns name none = All (λ n. n ≢ name) ns
FirstSlot ns name (some i) = get_elem? ns i ≡ some name

abbrev SlotFrom : ℕ → List Bytes → Bytes → Option ℕ → Type 0
SlotFrom k ns name none = All (λ n. n ≢ name) ns
SlotFrom k ns name (some m) = (i : ℕ) × (m ≡ k + i) × (get_elem? ns i ≡ some name)

SlotFrom-next :
    (k : ℕ) (n : Bytes) (ns : List Bytes) (name : Bytes) (o : Option ℕ)
    → n ≢ name
    → SlotFrom (suc k) ns name o
    → SlotFrom k (n ∷ ns) name o
SlotFrom-next k n ns name none ne f = (ne, f)
SlotFrom-next k n ns name (some m) ne (i, e, g) = (suc i, omega arith, g)

find_slot_from-SlotFrom :
    (k : ℕ) (ns : List Bytes) (name : Bytes) → SlotFrom k ns name (find_slot_from k ns name)
unfolding find_slot_from
find_slot_from-SlotFrom k [] name = tt
find_slot_from-SlotFrom k (n ∷ ns) name = elim (Bool-cases (str_eq n name)) [
  | inl e ↦ rw e ((0, omega arith, ap some ((str_eq_iff n name).0 e)))
  | inr e ↦ rw e (
      SlotFrom-next k n ns name (find_slot_from (suc k) ns name)
        (λ h. ground (arith, (str_eq_iff n name).1 h)) (find_slot_from-SlotFrom (suc k) ns name))
]

SlotFrom-FirstSlot :
    (ns : List Bytes) (name : Bytes) (o : Option ℕ) → SlotFrom 0 ns name o → FirstSlot ns name o
SlotFrom-FirstSlot ns name none f = f
SlotFrom-FirstSlot ns name (some m) (i, e, g) = let e' : m ≡ i = omega arith in rw e' g

pub find_slot_from-FirstSlot :
    (ns : List Bytes) (name : Bytes) → FirstSlot ns name (find_slot_from 0 ns name)
find_slot_from-FirstSlot ns name =
    SlotFrom-FirstSlot ns name (find_slot_from 0 ns name) (find_slot_from-SlotFrom 0 ns name)

pub Aligned-mono :
    (P Q : Table → Entries → Type 0)
    → ((t : Table) (e : Entries) → P t e → Q t e)
    → (ns : List Bytes) (ts : List Table) (es : List Entries) → Aligned P ns ts es
    → Aligned Q ns ts es
Aligned-mono P Q k [] [] [] a = a
Aligned-mono P Q k (n ∷ ns) (t ∷ ts) (e ∷ es) (h, p, a) =
    (h, k t e p, Aligned-mono P Q k ns ts es a)
Aligned-mono P Q k _ _ _ a = absurd a

module _ (P : Table → Entries → Type 0) where
  pub Aligned-append :
      (ns : List Bytes) (ts : List Table) (es : List Entries) (t : Table) (e : Entries)
      → P t e
      → Aligned P ns ts es
      → Aligned P (ns ++ t.name ∷ []) (ts ++ t ∷ []) (es ++ e ∷ [])
  Aligned-append [] [] [] t e p a = (refl, p, tt)
  Aligned-append (n ∷ ns) (t' ∷ ts) (e' ∷ es) t e p (h, q, a) =
      (h, q, Aligned-append ns ts es t e p a)
  Aligned-append _ _ _ t e p a = absurd a

  pub Aligned-remove_at :
      (ns : List Bytes) (ts : List Table) (es : List Entries) (i : ℕ)
      → Aligned P ns ts es
      → Aligned P (remove_at ns i) (remove_at ts i) (remove_at es i)
  Aligned-remove_at [] [] [] i a = a
  Aligned-remove_at (n ∷ ns) (t ∷ ts) (e ∷ es) zero (h, q, a) = a
  Aligned-remove_at (n ∷ ns) (t ∷ ts) (e ∷ es) (suc i) (h, q, a) =
      (h, q, Aligned-remove_at ns ts es i a)
  Aligned-remove_at _ _ _ i a = absurd a

  pub Aligned-set :
      (ns : List Bytes) (ts : List Table) (es : List Entries) (i : ℕ) (t : Table) (e : Entries)
      → get_elem? ns i ≡ some t.name
      → P t e
      → Aligned P ns ts es
      → Aligned P ns (set ts i t) (set es i e)
  Aligned-set [] [] [] i t e n p a = a
  Aligned-set (n ∷ ns) (t' ∷ ts) (e' ∷ es) zero t e g p (h, q, a) = (cc, p, a)
  Aligned-set (n ∷ ns) (t' ∷ ts) (e' ∷ es) (suc i) t e g p (h, q, a) =
      (h, q, Aligned-set ns ts es i t e g p a)
  Aligned-set _ _ _ i t e n p a = absurd a

  pub Aligned-get :
      (ns : List Bytes) (ts : List Table) (es : List Entries) (i : ℕ) {n : Bytes}
      → get_elem? ns i ≡ some n
      → Aligned P ns ts es
      → (t : Table) × (e : Entries) × (get_elem? ts i ≡ some t)
        × (get_elem? es i ≡ some e)
        × (t.name ≡ n)
        × P t e
  Aligned-get [] [] [] i g a = cc
  Aligned-get (n ∷ ns) (t ∷ ts) (e ∷ es) zero g (h, q, a) = (t, e, refl, refl, cc, q)
  Aligned-get (n ∷ ns) (t ∷ ts) (e ∷ es) (suc i) g (h, q, a) = Aligned-get ns ts es i g a
  Aligned-get _ _ _ i g a = absurd a

  pub Aligned-length :
      (ns : List Bytes) (ts : List Table) (es : List Entries)
      → Aligned P ns ts es
      → (length ts ≡ length ns) × (length es ≡ length ns)
  Aligned-length [] [] [] a = (refl, refl)
  Aligned-length (n ∷ ns) (t ∷ ts) (e ∷ es) (h, q, a) =
      let (l, m) = Aligned-length ns ts es a in (ap suc l, ap suc m)
  Aligned-length _ _ _ a = absurd a

pub Distinct-append :
    (ns : List Bytes) (n : Bytes) → All (λ m. m ≢ n) ns → Distinct ns → Distinct (ns ++ n ∷ [])
Distinct-append [] n h d = (tt, tt)
Distinct-append (m ∷ ns) n (h, hs) (k, d) =
    (All-append (λ x. x ≢ m) ns (n ∷ []) k ((λ e. h (cc), tt)), Distinct-append ns n hs d)

pub Distinct-remove_at : (ns : List Bytes) (i : ℕ) → Distinct ns → Distinct (remove_at ns i)
Distinct-remove_at [] i d = d
Distinct-remove_at (n ∷ ns) zero d = d.1
Distinct-remove_at (n ∷ ns) (suc i) d =
    (All-remove_at (λ m. m ≢ n) ns i d.0, Distinct-remove_at ns i d.1)
