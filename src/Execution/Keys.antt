-- ===== src/Execution/Keys.antt =====
-- Primary keys (src/execution/executor.cpp): the index holds the int key of every row, and no int key
-- stands in two rows.
use cpp_db.Base.{
  ℕ, zero, suc, ◌≡◌, ◌≢◌, List, [], ◌∷◌, ◌++◌, none, some, ℤ, get_elem?, All, remove_at, All-append,
  All-remove_at, All-get, sym, subst, ◌∙◌, map,
}
use cpp_db.Storage.Value.{Row}
use cpp_db.Storage.Index.{Entries}
use cpp_db.Storage.Index.Lookup.{lookup}
use cpp_db.Storage.Table.{Table, primary_key_index}
use cpp_db.Execution.Outcome.{WellFormed}
use cpp_db.Execution.Insert.Rows.{key_of}

-- The row's key, if it has one, is in the index.
abbrev pub HasEntry : ℤ → Entries → Row → Type 0
HasEntry pk es row = (k : ℤ) → key_of pk row ≡ some k → lookup es k ≢ none

-- The rows have no key in common.
abbrev pub Apart : ℤ → Row → Row → Type 0
Apart pk r s = (k : ℤ) → key_of pk r ≡ some k → key_of pk s ≢ some k

abbrev pub UniqueKeys : ℤ → List Row → Type 0
UniqueKeys pk [] = Unit
UniqueKeys pk (r ∷ rs) = All (Apart pk r) rs × UniqueKeys pk rs

-- The invariant of a table with its index under which int keys are unique.
pub record Keyed (t : Table) (es : Entries) : Type 0 where
  pub well_formed : WellFormed t es
  pub indexed : All (HasEntry (primary_key_index t) es) t.rows
  pub unique : UniqueKeys (primary_key_index t) t.rows

module _ (pk : ℤ) where
  Apart-sym : (r s : Row) → Apart pk r s → Apart pk s r
  Apart-sym r s a k h g = a k g h

  All-Apart_sym : (r : Row) (rs : List Row) → All (Apart pk r) rs → All (λ s. Apart pk s r) rs
  All-Apart_sym r [] h = tt
  All-Apart_sym r (s ∷ rs) h = (Apart-sym r s h.0, All-Apart_sym r rs h.1)

  pub UniqueKeys-remove_at :
      (rows : List Row) (i : ℕ) → UniqueKeys pk rows → UniqueKeys pk (remove_at rows i)
  UniqueKeys-remove_at [] i u = u
  UniqueKeys-remove_at (r ∷ rs) zero u = u.1
  UniqueKeys-remove_at (r ∷ rs) (suc i) u =
      (All-remove_at (Apart pk r) rs i u.0, UniqueKeys-remove_at rs i u.1)

  -- A row that is taken out shares its key with none of those that stay.
  pub removed-Apart :
      (rows : List Row) (i : ℕ) (row : Row)
      → UniqueKeys pk rows
      → get_elem? rows i ≡ some row
      → All (Apart pk row) (remove_at rows i)
  removed-Apart [] i row u g = cc
  removed-Apart (r ∷ rs) zero row u g =
      let e : r ≡ row = cc in subst (λ x. All (Apart pk x) rs) e u.0
  removed-Apart (r ∷ rs) (suc i) row u g =
      (Apart-sym r row (All-get (Apart pk r) rs i u.0 g), removed-Apart rs i row u.1 g)

  pub UniqueKeys-append :
      (rows : List Row) (row : Row)
      → UniqueKeys pk rows
      → All (Apart pk row) rows
      → UniqueKeys pk (rows ++ row ∷ [])
  UniqueKeys-append [] row u a = (tt, tt)
  UniqueKeys-append (r ∷ rs) row (h, u) (a, later) = (
    All-append (Apart pk r) rs (row ∷ []) h (Apart-sym row r a, tt),
    UniqueKeys-append rs row u later,
  )

  -- A function that keeps the keys keeps the invariants on rows.
  module _ (f : Row → Row) (same : (r : Row) → key_of pk (f r) ≡ key_of pk r) where
    All-Apart-map :
        (r : Row) (rs : List Row) → All (Apart pk r) rs → All (Apart pk (f r)) (map f rs)
    All-Apart-map r [] h = tt
    All-Apart-map r (s ∷ rs) h =
        (λ k p q. h.0 k (sym (same r) ∙ p) (sym (same s) ∙ q), All-Apart-map r rs h.1)

    pub UniqueKeys-map : (rows : List Row) → UniqueKeys pk rows → UniqueKeys pk (map f rows)
    UniqueKeys-map [] u = tt
    UniqueKeys-map (r ∷ rs) u = (All-Apart-map r rs u.0, UniqueKeys-map rs u.1)

    pub HasEntry-map :
        (es : Entries) (rows : List Row)
        → All (HasEntry pk es) rows
        → All (HasEntry pk es) (map f rows)
    HasEntry-map es [] h = tt
    HasEntry-map es (r ∷ rs) h = (λ k p. h.0 k (sym (same r) ∙ p), HasEntry-map es rs h.1)

  -- Rows apart from a row whose key alone has left the index still have their entries.
  pub HasEntry-without :
      (row : Row) (es es' : Entries) (rows : List Row)
      → ((j : ℤ) → key_of pk row ≢ some j → lookup es' j ≡ lookup es j)
      → All (Apart pk row) rows
      → All (HasEntry pk es) rows
      → All (HasEntry pk es') rows
  HasEntry-without row es es' [] w a h = tt
  HasEntry-without row es es' (r ∷ rs) w a h =
      (λ k p q. h.0 k p (sym (w k (λ e. a.0 k e p)) ∙ q), HasEntry-without row es es' rs w a.1 h.1)

  -- Entries that stay in a growing index.
  pub HasEntry-grown :
      (es es' : Entries) (rows : List Row)
      → ((k : ℤ) → lookup es k ≢ none → lookup es' k ≢ none)
      → All (HasEntry pk es) rows
      → All (HasEntry pk es') rows
  HasEntry-grown es es' [] w h = tt
  HasEntry-grown es es' (r ∷ rs) w h = (λ k p. w k (h.0 k p), HasEntry-grown es es' rs w h.1)

  -- A key that is not in the index stands in no row.
  pub fresh-Apart :
      (es : Entries) (row : Row) (rows : List Row)
      → ((k : ℤ) → key_of pk row ≡ some k → lookup es k ≡ none)
      → All (HasEntry pk es) rows
      → All (Apart pk row) rows
  fresh-Apart es row [] f h = tt
  fresh-Apart es row (r ∷ rs) f h = (λ k p q. h.0 k q (f k p), fresh-Apart es row rs f h.1)

primary_key_same :
    (t t' : Table) → t'.columns ≡ t.columns → primary_key_index t' ≡ primary_key_index t
unfolding primary_key_index
primary_key_same t t' e = rw e

-- A table with the columns of another has the invariant, if the rows and the index have it for the
-- other's primary key.
pub Keyed_of :
    (t t' : Table) (es : Entries)
    → t'.columns ≡ t.columns
    → WellFormed t' es
    → All (HasEntry (primary_key_index t) es) t'.rows
    → UniqueKeys (primary_key_index t) t'.rows
    → Keyed t' es
Keyed_of t t' es e v h u =
    let same : primary_key_index t ≡ primary_key_index t' = sym (primary_key_same t t' e) in
    record {
      well_formed = v;
      indexed = subst (λ pk. All (HasEntry pk es) t'.rows) same h;
      unique = subst (λ pk. UniqueKeys pk t'.rows) same u;
    }
