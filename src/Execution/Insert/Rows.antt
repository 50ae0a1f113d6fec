-- ===== src/Execution/Insert/Rows.antt =====
-- What an INSERT does to the rows and the index (src/execution/executor.cpp).
use cpp_db.Base.{
  ℕ, ◌≡◌, ◌≢◌, refl, List, [], ◌∷◌, ◌++◌, Option, none, some, ℤ, pos, negsuc, ==ℤ_refl, arith,
  length, get_elem?, get_or, Bool-cases, inl, inr, get_elem?-get_or, ◌∙◌, length-map, ◌==◌, Bytes,
}
use cpp_db.Storage.Value.{Value, Row}
use cpp_db.Storage.Table.{Table, primary_key_index, insert_row}
use cpp_db.Storage.Index
use cpp_db.Storage.Index.{Entries}
use cpp_db.Storage.Index.Search.{IsSorted}
use cpp_db.Storage.Index.Lookup.{lookup, find-lookup}
use cpp_db.Storage.Index.Insert.{Inserted, insert-Inserted}
use cpp_db.Parser.Ast.{Literal, InsertStmt}
use cpp_db.Execution.State.{must, Slot}
use cpp_db.Execution.Insert.{build_row, check_count, check_key, index_row, insert_into}
use cpp_db.Execution.Where.{literal_value}
use cpp_db.Execution.Outcome.{
  Safe, Safe-bind, Ends-Safe, Ends-must, Ends_mono, HasWidth, InRange, WellFormed,
  primary_key_index-InRange,
}

-- The int in the primary-key column of a row, if there is a primary key and the value is an int.
abbrev pub int_key : Value → Option ℤ
int_key (Value.int k) = some k
int_key _ = none

abbrev pub key_of : ℤ → Row → Option ℤ
key_of (negsuc n) row = none
key_of (pos pk) row = elim (get_elem? row pk) [ none ↦ none | some v ↦ int_key v ]

-- The index after a row was added: the row's key was not in it, and is now, and no key has left.
pub record Indexed (pk : ℤ) (row : Row) (es es' : Entries) : Type 0 where
  pub sorted : IsSorted es'
  pub fresh : (k : ℤ) → key_of pk row ≡ some k → lookup es k ≡ none
  pub present : (k : ℤ) → key_of pk row ≡ some k → lookup es' k ≢ none
  pub kept : (k : ℤ) → lookup es k ≢ none → lookup es' k ≢ none

-- The key that is put into the index.
abbrev KeyOk : Value → Entries → ℤ → Type 0
KeyOk v es key = (k : ℤ) → int_key v ≡ some k → (key ≡ k) × (lookup es k ≡ none)

check_key_at :
    (k : ℤ) (es : Entries) (o : Option ℕ)
    → lookup es k ≡ o
    → Index.find es k ≡ some o
    → Safe (check_key (Value.int k) es) (KeyOk (Value.int k) es)
unfolding check_key
check_key_at k es none l e = rw (check_key, e) (λ j h. (ground arith, ground arith))
check_key_at k es (some i) l e = rw (check_key, e) tt

check_key-KeyOk : (v : Value) (es : Entries) → IsSorted es → Safe (check_key v es) (KeyOk v es)
unfolding check_key
check_key-KeyOk (Value.int k) es s = check_key_at k es (lookup es k) refl (find-lookup es k s)
check_key-KeyOk _ es s = λ k h. cc

Inserted-Indexed :
    (pk : ℕ) (row : Row) (v : Value) (es : Entries) (key : ℤ) (row_id : ℕ)
    → get_elem? row pk ≡ some v
    → KeyOk v es key
    → (es' : Entries) → Inserted es key row_id es'
    → Indexed (pos pk) row es es'
Inserted-Indexed pk row v es key row_id g ok es' i = record {
  sorted = i.sorted;
  fresh = λ k h. (ok k (own k h)).1;
  present = λ k h. rw (i.at_key k, (ok k (own k h)).0, ==ℤ_refl k) (λ n. cc);
  kept = λ k h. rw (i.at_key k) (ground arith);
}
  where
    own : (k : ℤ) → key_of (pos pk) row ≡ some k → int_key v ≡ some k
    own k h = ground arith

index_row-Indexed :
    (t : Table) (pk : ℤ) (row : Row) (row_id : ℕ) (es : Entries)
    → InRange t pk
    → HasWidth t row
    → IsSorted es
    → Safe (index_row pk row row_id es) (Indexed pk row es)
unfolding index_row
index_row-Indexed t (negsuc n) row row_id es b w s = record {
  sorted = s;
  fresh = λ k h. cc;
  present = λ k h. cc;
  kept = λ k h. h;
}
index_row-Indexed t (pos pk) row row_id es b w s =
    let v : Value = get_or row pk Value.none in
    let g : get_elem? row pk ≡ some v = get_elem?-get_or row pk Value.none (omega arith) in
    rw (index_row, g)
      (Safe-bind (check_key v es) (λ key. must (Index.insert es key row_id)) (KeyOk v es)
        (Indexed (pos pk) row es) (check_key-KeyOk v es s)
        λ key ok. Ends-Safe (must (Index.insert es key row_id)) (Indexed (pos pk) row es) (
          Ends_mono (must (Index.insert es key row_id)) (Inserted es key row_id)
            (Indexed (pos pk) row es)
            (Ends-must (Index.insert es key row_id) (Inserted es key row_id)
              (insert-Inserted es key row_id s))
            (Inserted-Indexed pk row v es key row_id g ok)))

-- The slot after a row was inserted.
pub record RowInserted (values : List Literal) (s : Slot) (r : Slot × Bytes) : Type 0 where
  pub same_at : r.0.at ≡ s.at
  pub width : HasWidth s.table (build_row values)
  pub table : r.0.table ≡ record s.table { rows = s.table.rows ++ build_row values ∷ [] }
  pub indexed : Indexed (primary_key_index s.table) (build_row values) s.index r.0.index

check_count-Safe :
    (t : Table) (values : List Literal)
    → Safe (check_count t values) (λ _. HasWidth t (build_row values))
unfolding check_count build_row
check_count-Safe t values = elim (Bool-cases (length values == length t.columns)) [
  | inl e ↦
      rw (check_count, e)
        (length-map (λ (l : Literal). literal_value l.is_int l.text) values ∙ ground arith)
  | inr e ↦ rw (check_count, e) tt
]

-- An INSERT on a well-formed table does not fault, and if it succeeds the table has the row at its end.
pub insert_into-RowInserted :
    (stmt : InsertStmt) (s : Slot)
    → WellFormed s.table s.index
    → Safe (insert_into stmt s) (RowInserted stmt.values s)
unfolding insert_into
insert_into-RowInserted stmt s v =
    Safe-bind (check_count s.table stmt.values) _ (λ _. HasWidth s.table (build_row stmt.values))
      (RowInserted stmt.values s) (check_count-Safe s.table stmt.values)
      λ _ w.
        Safe-bind
          (index_row (primary_key_index s.table) (build_row stmt.values) (length s.table.rows)
            s.index)
          _ (Indexed (primary_key_index s.table) (build_row stmt.values) s.index)
          (RowInserted stmt.values s)
          (index_row-Indexed s.table (primary_key_index s.table) (build_row stmt.values)
            (length s.table.rows) s.index (primary_key_index-InRange s.table) w v.sorted)
          λ es i.
            unfold insert_row in record { same_at = refl; width = w; table = refl; indexed = i }
