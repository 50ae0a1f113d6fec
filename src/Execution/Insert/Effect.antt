-- ===== src/Execution/Insert/Effect.antt =====
-- What an INSERT does to its table, and when it is refused (src/execution/executor.cpp).
use cpp_db.Base.{
  ℕ, ◌≡◌, refl, [], ◌∷◌, ◌++◌, none, some, ℤ, pos, negsuc, arith, length, get_elem?, get_or,
  get_elem?-get_or, Bytes, codes, ap, ◌∙◌, sym, subst, Returns, snprintf, print_int, All-append,
  length-map, ==_iff,
}
use cpp_db.Storage.Value.{Value, Row}
use cpp_db.Storage.Table.{Table, primary_key_index, insert_row}
use cpp_db.Storage.Index
use cpp_db.Storage.Index.{Entries}
use cpp_db.Storage.Index.Search.{IsSorted}
use cpp_db.Storage.Index.Lookup.{lookup, find-lookup}
use cpp_db.Storage.Index.Insert.{Inserted, insert-Inserted}
use cpp_db.Storage.Database.{Database}
use cpp_db.Storage.Database.View.{table_of}
use cpp_db.Parser.Ast.{Literal, InsertStmt}
use cpp_db.Execution.State.{Executor, Check, done, fail, Slot}
use cpp_db.Execution.Where.{literal_value}
use cpp_db.Execution.Outcome.{
  Ends, Safe, Safe_mono, HasWidth, InRange, WellFormed, primary_key_index-InRange,
}
use cpp_db.Execution.Modify.{Effect, Works, IsReady, Modified}
use cpp_db.Execution.Modify.Effects.{modify-Modified}
use cpp_db.Execution.Insert.{build_row, check_count, check_key, index_row, insert_into, exec_insert}
use cpp_db.Execution.Insert.Rows.{int_key, key_of, Indexed, RowInserted, insert_into-RowInserted}

-- The row of the values stands at the end, nothing else of the table has changed, and the row's key
-- was not in the index before and is now.
abbrev pub Inserts : InsertStmt → Effect
Inserts stmt t e t' e' msg =
    (t' ≡ record t { rows = t.rows ++ build_row stmt.values ∷ [] })
    × Indexed (primary_key_index t) (build_row stmt.values) e e'

RowInserted-Works :
    (stmt : InsertStmt) (s : Slot) (r : Slot × Bytes)
    → WellFormed s.table s.index
    → RowInserted stmt.values s r
    → Works WellFormed (Inserts stmt) s r
RowInserted-Works stmt s r v i = (
  i.same_at,
  ap (λ (t : Table). t.name) i.table,
  subst (λ (t : Table). WellFormed t r.0.index) (sym i.table)
      (record {
        sorted = i.indexed.sorted;
        widths =
            All-append (HasWidth s.table) s.table.rows (build_row stmt.values ∷ []) v.widths
              (i.width, tt);
      }),
  (i.table, i.indexed),
)

pub insert_into-Safe :
    (stmt : InsertStmt) (s : Slot)
    → WellFormed s.table s.index
    → Safe (insert_into stmt s) (Works WellFormed (Inserts stmt) s)
insert_into-Safe stmt s v =
    Safe_mono (insert_into stmt s) (RowInserted stmt.values s) (Works WellFormed (Inserts stmt) s)
      (insert_into-RowInserted stmt s v) (λ r i. RowInserted-Works stmt s r v i)

-- The values fill the columns.
abbrev pub Fills : Table → InsertStmt → Type 0
Fills t stmt = length stmt.values ≡ length t.columns

check_count_ok :
    (t : Table) (stmt : InsertStmt) → Fills t stmt → check_count t stmt.values ≡ done tt
unfolding check_count
check_count_ok t stmt f = rw (check_count, (==_iff (length stmt.values) (length t.columns)).1 f)

pub build_row-width :
    (t : Table) (stmt : InsertStmt) → Fills t stmt → HasWidth t (build_row stmt.values)
unfolding build_row
build_row-width t stmt f =
    length-map (λ (l : Literal). literal_value l.is_int l.text) stmt.values ∙ f

Fine : {A : Type 0} → Check A → Type 0
Fine m = Ends m (λ _. Unit)

check_key_fine :
    (v : Value) (es : Entries)
    → IsSorted es
    → ((k : ℤ) → int_key v ≡ some k → lookup es k ≡ none)
    → (key : ℤ) × (check_key v es ≡ done key)
unfolding check_key
check_key_fine (Value.int k) es s f = (k, rw (check_key, find-lookup es k s, f k refl))
check_key_fine (Value.string t) es s f = (pos 0, refl)
check_key_fine Value.none es s f = (pos 0, refl)

index_row_fine :
    (t : Table) (pk : ℤ) (row : Row) (row_id : ℕ) (es : Entries)
    → InRange t pk
    → HasWidth t row
    → IsSorted es
    → ((k : ℤ) → key_of pk row ≡ some k → lookup es k ≡ none)
    → (es' : Entries) × (index_row pk row row_id es ≡ done es')
unfolding index_row
index_row_fine t (negsuc n) row row_id es b w s f = (es, refl)
index_row_fine t (pos pk) row row_id es b w s f =
    let v : Value = get_or row pk Value.none in
    let g : get_elem? row pk ≡ some v = get_elem?-get_or row pk Value.none (omega arith) in
    let (key, ck) = check_key_fine v es s (λ k h. f k (ground arith)) in
    (elim (Index.insert es key row_id)
        as (λ o.
          Index.insert es key row_id ≡ o
          → Returns o (Inserted es key row_id)
          → (es' : Entries) × (index_row (pos pk) row row_id es ≡ done es')) [
            | none ↦ λ q r. absurd r
            | some es' ↦ λ q r. (es', rw (index_row, g, ck, q))
          ])
      refl (insert-Inserted es key row_id s)

insert_into-Ends :
    (stmt : InsertStmt) (s : Slot)
    → WellFormed s.table s.index
    → Fills s.table stmt
    → ((k : ℤ)
        → key_of (primary_key_index s.table) (build_row stmt.values) ≡ some k
        → lookup s.index k ≡ none)
    → Ends (insert_into stmt s) (Works WellFormed (Inserts stmt) s)
unfolding insert_into
insert_into-Ends stmt s v f fresh =
    let (es, i) =
      index_row_fine s.table (primary_key_index s.table) (build_row stmt.values)
        (length s.table.rows) s.index (primary_key_index-InRange s.table)
        (build_row-width s.table stmt f) v.sorted fresh in
    let e : insert_into stmt s
        ≡ done (
          record { at = s.at; table = insert_row s.table (build_row stmt.values); index = es },
          codes "1 row inserted",
        ) =
      rw (insert_into, check_count_ok s.table stmt f, i) in
    let h : Safe (insert_into stmt s) (Works WellFormed (Inserts stmt) s) =
      insert_into-Safe stmt s v in
    subst (λ m. Ends m (Works WellFormed (Inserts stmt) s)) (sym e)
      (subst (λ m. Safe m (Works WellFormed (Inserts stmt) s)) e h)

-- On an open, valid database, INSERT of as many values as the table has columns, with a key that is
-- not in the index, succeeds: the row is added at the end, its key is in the index, and no other
-- table changes.
pub exec_insert-Modified :
    {Disk : Type 0} (x : Executor Disk) (stmt : InsertStmt) (db : Database) (t : Table)
    (e : Entries)
    → IsReady WellFormed x
    → x.current_db ≡ some db
    → table_of db stmt.table_name ≡ some (t, e)
    → Fills t stmt
    → ((k : ℤ) → key_of (primary_key_index t) (build_row stmt.values) ≡ some k → lookup e k ≡ none)
    → Returns (exec_insert x stmt) (Modified WellFormed (Inserts stmt) x stmt.table_name)
unfolding exec_insert
exec_insert-Modified x stmt db t e ready u f fills fresh =
    modify-Modified WellFormed (Inserts stmt) x stmt.table_name (insert_into stmt) db t e ready u f
      (λ i v. insert_into-Ends stmt (record { at = i; table = t; index = e }) v fills fresh)

check_key_duplicate :
    (v : Value) (es : Entries) (k : ℤ) (i : ℕ)
    → IsSorted es
    → int_key v ≡ some k
    → lookup es k ≡ some i
    → check_key v es ≡ fail (snprintf 256 (codes "Duplicate primary key: " ++ print_int k))
unfolding check_key
check_key_duplicate (Value.int j) es k i s e l =
    let same : j ≡ k = cc in rw (check_key, same, find-lookup es k s, l, same)
check_key_duplicate (Value.string t) es k i s e l = cc
check_key_duplicate Value.none es k i s e l = cc

index_row_duplicate :
    (t : Table) (pk : ℤ) (row : Row) (row_id : ℕ) (es : Entries) (k : ℤ) (i : ℕ)
    → InRange t pk
    → HasWidth t row
    → IsSorted es
    → key_of pk row ≡ some k
    → lookup es k ≡ some i
    → index_row pk row row_id es
      ≡ fail (snprintf 256 (codes "Duplicate primary key: " ++ print_int k))
unfolding index_row
index_row_duplicate t (negsuc n) row row_id es k i b w s e l = cc
index_row_duplicate t (pos pk) row row_id es k i b w s e l =
    let v : Value = get_or row pk Value.none in
    let g : get_elem? row pk ≡ some v = get_elem?-get_or row pk Value.none (omega arith) in
    rw (index_row, g, check_key_duplicate v es k i s (ground arith) l)

pub insert_into_duplicate :
    (stmt : InsertStmt) (s : Slot) (k : ℤ) (i : ℕ)
    → WellFormed s.table s.index
    → Fills s.table stmt
    → key_of (primary_key_index s.table) (build_row stmt.values) ≡ some k
    → lookup s.index k ≡ some i
    → insert_into stmt s ≡ fail (snprintf 256 (codes "Duplicate primary key: " ++ print_int k))
unfolding insert_into
insert_into_duplicate stmt s k i v f e l = rw (
  insert_into,
  check_count_ok s.table stmt f,
  index_row_duplicate s.table (primary_key_index s.table) (build_row stmt.values)
      (length s.table.rows) s.index k i (primary_key_index-InRange s.table)
      (build_row-width s.table stmt f) v.sorted e l,
)
