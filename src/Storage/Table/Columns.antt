-- ===== src/Storage/Table/Columns.antt =====
-- Looking columns up (src/storage/table.cpp).
use cpp_db.Base.{
  ℕ, zero, suc, ◌+◌, ◌<◌, ◌≡◌, refl, subst, Bool-cases, inl, inr, true, List, [], ◌∷◌, ℤ, pos,
  negsuc, arith, get_elem?, some, Bytes, str_eq, str_eq_iff, All,
}
use cpp_db.Storage.Table.{
  Column, Table, find_column_from, primary_key_from, find_column, primary_key_index,
}

-- A column number answers for a test on columns: that column is the first that passes, or, at -1, no
-- column passes.
abbrev pub FirstColumn : (Column → Type 0) → List Column → ℤ → Type 0
FirstColumn P cs (pos n) =
    ((c : Column) × (get_elem? cs n ≡ some c) × P c)
    × ((i : ℕ) (c : Column) → i < n → get_elem? cs i ≡ some c → ¬ P c)
FirstColumn P cs (negsuc n) = (n ≡ 0) × All (λ c. ¬ P c) cs

-- The same, for numbers that start at `k`.
abbrev FirstFrom : (Column → Type 0) → ℕ → List Column → ℤ → Type 0
FirstFrom P k cs (pos m) = (n : ℕ) × (m ≡ k + n) × FirstColumn P cs (pos n)
FirstFrom P k cs (negsuc n) = FirstColumn P cs (negsuc n)

FirstFrom-here :
    (P : Column → Type 0) (k : ℕ) (c : Column) (cs : List Column)
    → P c
    → FirstFrom P k (c ∷ cs) (pos k)
FirstFrom-here P k c cs p = (0, omega arith, ((c, refl, p), λ i d h e. absurd (omega arith)))

FirstFrom-next :
    (P : Column → Type 0) (k : ℕ) (c : Column) (cs : List Column) (z : ℤ)
    → ¬ P c
    → FirstFrom P (suc k) cs z
    → FirstFrom P k (c ∷ cs) z
FirstFrom-next P k c cs (pos m) np (n, e, ((d, g, p), before)) =
    (suc n, omega arith, ((d, g, p), earlier))
  where
    earlier : (i : ℕ) (x : Column) → i < suc n → get_elem? (c ∷ cs) i ≡ some x → ¬ P x
    earlier zero x h g' q = np (subst P (ground arith) q)
    earlier (suc i) x h g' q = before i x (omega arith) g' q
FirstFrom-next P k c cs (negsuc m) np (e, none_pass) = (e, (np, none_pass))

FirstFrom-FirstColumn :
    (P : Column → Type 0) (cs : List Column) (z : ℤ) → FirstFrom P 0 cs z → FirstColumn P cs z
FirstFrom-FirstColumn P cs (pos m) (n, e, f) = let e' : m ≡ n = omega arith in rw e' f
FirstFrom-FirstColumn P cs (negsuc m) f = f

abbrev pub HasName : Bytes → Column → Type 0
HasName col_name c = c.name ≡ col_name

abbrev pub IsPrimary : Column → Type 0
IsPrimary c = c.is_primary ≡ true

find_column_from-FirstFrom :
    (k : ℕ) (cs : List Column) (col_name : Bytes)
    → FirstFrom (HasName col_name) k cs (find_column_from k cs col_name)
unfolding find_column_from
find_column_from-FirstFrom k [] col_name = (refl, tt)
find_column_from-FirstFrom k (c ∷ cs) col_name = elim (Bool-cases (str_eq c.name col_name)) [
  | inl e ↦ rw e (FirstFrom-here (HasName col_name) k c cs ((str_eq_iff c.name col_name).0 e))
  | inr e ↦ rw e (
      FirstFrom-next (HasName col_name) k c cs (find_column_from (suc k) cs col_name)
        (λ h. ground (arith, (str_eq_iff c.name col_name).1 h))
        (find_column_from-FirstFrom (suc k) cs col_name))
]

-- `find_column` returns the number of the first column with the name, and -1 exactly if no column has
-- the name.
pub find_column-FirstColumn :
    (t : Table) (col_name : Bytes)
    → FirstColumn (HasName col_name) t.columns (find_column t col_name)
unfolding find_column
find_column-FirstColumn t col_name =
    FirstFrom-FirstColumn (HasName col_name) t.columns _
      (find_column_from-FirstFrom 0 t.columns col_name)

primary_key_from-FirstFrom :
    (k : ℕ) (cs : List Column) → FirstFrom IsPrimary k cs (primary_key_from k cs)
unfolding primary_key_from
primary_key_from-FirstFrom k [] = (refl, tt)
primary_key_from-FirstFrom k (c ∷ cs) = elim (Bool-cases c.is_primary) [
  | inl e ↦ simp e (FirstFrom-here IsPrimary k c cs e)
  | inr e ↦ simp e (
      FirstFrom-next IsPrimary k c cs (primary_key_from (suc k) cs) (λ h. cc)
        (primary_key_from-FirstFrom (suc k) cs))
]

-- `primary_key_index` returns the number of the first primary column, and -1 exactly if there is none.
pub primary_key_index-FirstColumn :
    (t : Table) → FirstColumn IsPrimary t.columns (primary_key_index t)
unfolding primary_key_index
primary_key_index-FirstColumn t =
    FirstFrom-FirstColumn IsPrimary t.columns _ (primary_key_from-FirstFrom 0 t.columns)
