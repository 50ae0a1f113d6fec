-- ===== src/Execution/Compose.antt =====
-- src/execution/executor.cpp: a row that is inserted is selected.
use cpp_db.Base.{
  Option, keep, map, str_eq_refl, true, Returns-bind, Returns_mono, Bytes, List, Returns, [], ap,
  codes, false, negsuc, none, refl, some, sym, ℤ, ◌++◌, ◌>>=◌, ◌∙◌, ◌∷◌, ◌≡◌,
}
use cpp_db.Storage.Table.{Table, primary_key_index}
use cpp_db.Storage.Index.{Entries}
use cpp_db.Storage.Index.Lookup.{lookup}
use cpp_db.Storage.Database.{Database}
use cpp_db.Storage.Database.View.{table_of}
use cpp_db.Parser.Ast.{InsertStmt, SelectStmt, WhereClause}
use cpp_db.Execution.State.{ExecResult, Executor}
use cpp_db.Execution.Outcome.{WellFormed}
use cpp_db.Execution.Modify.{IsReady, Modified}
use cpp_db.Execution.Insert.{build_row, exec_insert}
use cpp_db.Execution.Insert.Rows.{key_of}
use cpp_db.Execution.Insert.Effect.{Fills, Inserts, exec_insert-Modified}
use cpp_db.Execution.Select.{Target, column, exec_select}
use cpp_db.Execution.Select.{all}
use cpp_db.Execution.Executor.Select.{TargetOf, Selected, exec_select-Selected}
use cpp_db.Storage.Value.{Row}
use cpp_db.Execution.Select.Rows.{projected}
use cpp_db.Execution.Where.{passes}

-- `SELECT * FROM` a table.
abbrev pub select_all : Bytes → WhereClause → SelectStmt
select_all name w = record {
  column_name = codes "*";
  table_name = name;
  has_where = false;
  where_clause = w;
}

-- Every row is shown whole.
whole :
    (target : Target) (stmt : SelectStmt) (t : Table) (rows : List Row)
    → stmt.column_name ≡ codes "*"
    → TargetOf t stmt target
    → map (projected target) rows ≡ rows
whole (column c) stmt t rows e (n, _) = absurd (n e)
whole all stmt t [] e g = refl
whole all stmt t (r ∷ rs) e g = ap (λ s. r ∷ s) (whole all stmt t rs e g)

keep_all : (rows : List Row) → keep (λ _. true) rows ≡ rows
keep_all [] = refl
keep_all (r ∷ rs) = ap (λ s. r ∷ s) (keep_all rs)

-- There is one table of a name in the open database.
same_table :
    (o : Option Database) (db db' : Database) (name : Bytes) (t t' : Table) (e e' : Entries)
    → o ≡ some db
    → o ≡ some db'
    → table_of db name ≡ some (t, e)
    → table_of db' name ≡ some (t', e')
    → t ≡ t'
same_table o db db' name t t' e e' u v f g =
    let same : db ≡ db' = cc in
    let found : some (t, e) ≡ some (t', e') = sym f ∙ ap (λ d. table_of d name) same ∙ g in
    ap (λ (p : Option (Table × Entries)). elim p [ none ↦ t | some s ↦ s.0 ]) found

-- Without a clause SELECT * shows the rows of the table.
Selected-rows :
    {Disk : Type 0} (x : Executor Disk) (name : Bytes) (w : WhereClause)
    (r : Executor Disk × ExecResult) (db : Database) (t : Table) (e : Entries)
    → x.current_db ≡ some db
    → table_of db name ≡ some (t, e)
    → Selected x (select_all name w) r
    → r.0.result_table.rows ≡ t.rows
unfolding passes
Selected-rows x name w r db t e u f q =
    q.rows
    ∙ whole q.target (select_all name w) q.table (keep (passes false w q.where_col) q.table.rows)
        refl q.selects
    ∙ keep_all q.table.rows
    ∙ ap (λ (s : Table). s.rows)
        (sym (same_table x.current_db db q.db name t q.table e q.index u q.in_use f q.found))

module _ {Disk : Type 0} (x : Executor Disk) (stmt : InsertStmt) (w : WhereClause) (db : Database)
    (t : Table) (e : Entries) where
  -- The rows of the result table are those of the table and the new one.
  abbrev Shows : Executor Disk × ExecResult → Type 0
  Shows r = r.0.result_table.rows ≡ t.rows ++ build_row stmt.values ∷ []

  selected_after :
      (r : Executor Disk × ExecResult)
      → x.current_db ≡ some db
      → table_of db stmt.table_name ≡ some (t, e)
      → Modified WellFormed (Inserts stmt) x stmt.table_name r
      → Returns (exec_select r.0 (select_all stmt.table_name w)) Shows
  selected_after r u f m =
      let used : r.0.current_db ≡ some m.db' = ap (λ (y : Executor Disk). y.current_db) m.state in
      let found : table_of m.db' stmt.table_name ≡ some (m.table', m.index') =
        m.slots stmt.table_name ∙ rw (str_eq_refl stmt.table_name) refl in
      let old : t ≡ m.table =
        same_table x.current_db db m.db stmt.table_name t m.table e m.index u m.in_use f m.found in
      let rows : m.table'.rows ≡ t.rows ++ build_row stmt.values ∷ [] =
        ap (λ (s : Table). s.rows) m.effect.0
        ∙ ap (λ (s : Table). s.rows ++ build_row stmt.values ∷ []) (sym old) in
      Returns_mono (exec_select r.0 (select_all stmt.table_name w)) _ _
        (exec_select-Selected r.0 (select_all stmt.table_name w) m.ready m.db' m.table' m.index' all
          (negsuc 0) used found refl refl)
        (λ s q. Selected-rows r.0 stmt.table_name w s m.db' m.table' m.index' used found q ∙ rows)

  -- A row that is inserted is shown by SELECT * behind the rows that were there, in their order, on an
  -- open, valid database, if the INSERT has as many values as the table has columns and its key is not in
  -- the index.
  pub exec_select-exec_insert :
      IsReady WellFormed x
      → x.current_db ≡ some db
      → table_of db stmt.table_name ≡ some (t, e)
      → Fills t stmt
      → ((k : ℤ)
          → key_of (primary_key_index t) (build_row stmt.values) ≡ some k
          → lookup e k ≡ none)
      → Returns
          (exec_insert x stmt >>= λ r. exec_select r.0 (select_all stmt.table_name w))
          (λ r. r.0.result_table.rows ≡ t.rows ++ build_row stmt.values ∷ [])
  exec_select-exec_insert ready u f fills fresh =
      Returns-bind (exec_insert x stmt) _ _ _
        (exec_insert-Modified x stmt db t e ready u f fills fresh) (λ r m. selected_after r u f m)
