-- ===== src/Execution/Outcome.antt =====
-- How the checks of the handlers end, and the invariant of a table with its index.
use cpp_db.Base.{
  ℕ, ◌<◌, ◌≡◌, refl, Option, none, some, ℤ, pos, negsuc, Bytes, length, All, Returns, get_elem?-lt,
  ◌⊎◌, inl, inr,
}
use cpp_db.Storage.Value.{Row}
use cpp_db.Storage.Index.{Entries}
use cpp_db.Storage.Index.Search.{IsSorted}
use cpp_db.Storage.Table.{Column, Table, find_column, primary_key_index}
use cpp_db.Storage.Table.Columns.{
  FirstColumn, HasName, IsPrimary, find_column-FirstColumn, primary_key_index-FirstColumn,
}
use cpp_db.Execution.State.{Check, done, fail, fault, ◌>>=◌, must, require_column, column_missing}

-- The check ends with a value that satisfies the predicate.
abbrev pub Ends : {A : Type 0} → Check A → (A → Type 0) → Type 0
Ends (done a) P = P a
Ends (fail msg) P = ⊥
Ends fault P = ⊥

-- The check does not fault, and a value satisfies the predicate.
abbrev pub Safe : {A : Type 0} → Check A → (A → Type 0) → Type 0
Safe (done a) P = P a
Safe (fail msg) P = Unit
Safe fault P = ⊥

pub Safe-bind :
    {A B : Type 0} (m : Check A) (f : A → Check B) (P : A → Type 0) (Q : B → Type 0)
    → Safe m P
    → ((a : A) → P a → Safe (f a) Q)
    → Safe (m >>= f) Q
Safe-bind (done a) f P Q h k = k a h
Safe-bind (fail msg) f P Q h k = tt
Safe-bind fault f P Q h k = absurd h

pub Ends-bind :
    {A B : Type 0} (m : Check A) (f : A → Check B) (P : A → Type 0) (Q : B → Type 0)
    → Ends m P
    → ((a : A) → P a → Ends (f a) Q)
    → Ends (m >>= f) Q
Ends-bind (done a) f P Q h k = k a h
Ends-bind (fail msg) f P Q h k = absurd h
Ends-bind fault f P Q h k = absurd h

pub Ends-must : {A : Type 0} (o : Option A) (P : A → Type 0) → Returns o P → Ends (must o) P
Ends-must none P h = h
Ends-must (some a) P h = h

pub Ends-Safe : {A : Type 0} (m : Check A) (P : A → Type 0) → Ends m P → Safe m P
Ends-Safe (done a) P h = h
Ends-Safe (fail msg) P h = tt
Ends-Safe fault P h = h

pub Ends_mono :
    {A : Type 0} (m : Check A) (P Q : A → Type 0) → Ends m P → ((a : A) → P a → Q a) → Ends m Q
Ends_mono (done a) P Q h k = k a h
Ends_mono (fail msg) P Q h k = h
Ends_mono fault P Q h k = h

-- Every row has as many values as the table has columns.
abbrev pub HasWidth : Table → Row → Type 0
HasWidth t row = length row ≡ length t.columns

-- The invariant of a table with its index: the index is sorted, and every row has a value for every
-- column.
pub record WellFormed (t : Table) (es : Entries) : Type 0 where
  pub sorted : IsSorted es
  pub widths : All (HasWidth t) t.rows

-- A column number that a lookup returns stands for a column of the table, unless it is -1.
abbrev pub InRange : Table → ℤ → Type 0
InRange t (pos i) = i < length t.columns
InRange t (negsuc n) = Unit

FirstColumn-InRange :
    (P : Column → Type 0) (t : Table) (z : ℤ) → FirstColumn P t.columns z → InRange t z
FirstColumn-InRange P t (pos i) ((c, g, _), _) = get_elem?-lt t.columns i g
FirstColumn-InRange P t (negsuc n) h = tt

pub primary_key_index-InRange : (t : Table) → InRange t (primary_key_index t)
primary_key_index-InRange t =
    FirstColumn-InRange IsPrimary t (primary_key_index t) (primary_key_index-FirstColumn t)

require_column_at :
    (t : Table) (table_name column : Bytes) (z : ℤ)
    → FirstColumn (HasName column) t.columns z
    → find_column t column ≡ z
    → Safe (require_column t table_name column) (λ i. i < length t.columns)
unfolding require_column
require_column_at t table_name column (pos i) f e =
    rw (e, require_column) (FirstColumn-InRange (HasName column) t (pos i) f)
require_column_at t table_name column (negsuc n) f e = rw (e, require_column) tt

pub require_column-Safe :
    (t : Table) (table_name column : Bytes)
    → Safe (require_column t table_name column) (λ i. i < length t.columns)
require_column-Safe t table_name column =
    require_column_at t table_name column (find_column t column) (find_column-FirstColumn t column)
      refl

pub Safe_mono :
    {A : Type 0} (m : Check A) (P Q : A → Type 0) → Safe m P → ((a : A) → P a → Q a) → Safe m Q
Safe_mono (done a) P Q h k = k a h
Safe_mono (fail msg) P Q h k = tt
Safe_mono fault P Q h k = h

pub Safe_and :
    {A : Type 0} (m : Check A) (P Q : A → Type 0) → Safe m P → Safe m Q → Safe m (λ a. P a × Q a)
Safe_and (done a) P Q h k = (h, k)
Safe_and (fail msg) P Q h k = tt
Safe_and fault P Q h k = h

pub require_column_lem :
    (t : Table) (table_name column : Bytes) (i : ℕ)
    → find_column t column ≡ pos i
    → (require_column t table_name column ≡ done i) × (i < length t.columns)
unfolding require_column
require_column_lem t table_name column i f = (
  rw (require_column, f),
  FirstColumn-InRange (HasName column) t (pos i) (rw f at (find_column-FirstColumn t column)),
)

require_column_found :
    (t : Table) (table_name column : Bytes) (z : ℤ)
    → find_column t column ≡ z
    → ((msg : Bytes) × (require_column t table_name column ≡ fail msg))
      ⊎ ((i : ℕ) × (require_column t table_name column ≡ done i) × (find_column t column ≡ pos i))
unfolding require_column
require_column_found t table_name column (pos i) f = inr (i, rw (require_column, f), f)
require_column_found t table_name column (negsuc n) f =
    inl (column_missing column table_name, rw (require_column, f))

-- A column that the table lacks is refused.
pub require_column-cases :
    (t : Table) (table_name column : Bytes)
    → ((msg : Bytes) × (require_column t table_name column ≡ fail msg))
      ⊎ ((i : ℕ) × (require_column t table_name column ≡ done i) × (find_column t column ≡ pos i))
require_column-cases t table_name column =
    require_column_found t table_name column (find_column t column) refl
