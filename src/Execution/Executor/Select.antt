-- ===== src/Execution/Executor/Select.antt =====
-- SELECT (src/execution/executor.cpp) on any statement: it only sets the global result table.
use cpp_db.Execution.State.{require_db, require_table, ExecResult, Executor, result_ok, done, fail}
use cpp_db.Execution.Select.{
  exec_select, result_schema, Target, select_columns, select_target, all, column,
}
use cpp_db.Base.{
  Returns_mono, Option-cases, Returns, [], ap, keep, map, none, subst, true, ℤ, ◌<◌, take,
  Bool-cases, Bytes, List, arith, codes, drop, false, get_elem?, inl, inr, length, pos, refl, some,
  str_eq, str_eq_iff, suc, zero, ℕ, ◌∷◌, ◌≡◌, ◌≢◌, ◌⊎◌,
}
use cpp_db.Storage.Table.{new_table, Column, Table, find_column}
use cpp_db.Execution.Select.Rows.{projected, select_loop_lem, Fits}
use cpp_db.Parser.Ast.{SelectStmt}
use cpp_db.Execution.Outcome.{WellFormed, require_column-cases, require_column_lem}
use cpp_db.Execution.Where.Clauses.{where_column-cases, Clause, where_column_lem}
use cpp_db.Storage.Database.{Database}
use cpp_db.Execution.Modify.{DbReady, IsReady, Refused}
use cpp_db.Storage.Index.{Entries}
use cpp_db.Storage.Database.Tables.{foldl-add_column}
use cpp_db.Execution.Where.{passes}
use cpp_db.Execution.Modify.Checks.{
  require_db_closed, require_table_absent, require_db_open, require_table_found,
}
use cpp_db.Storage.Database.View.{table_of}

-- The target of a statement: all columns for `*`, and otherwise the column with the name.
abbrev pub TargetOf : Table → SelectStmt → Target → Type 0
TargetOf t stmt all = stmt.column_name ≡ codes "*"
TargetOf t stmt (column c) =
    (stmt.column_name ≢ codes "*") × (find_column t stmt.column_name ≡ pos c)

-- The columns that a target selects.
abbrev pub chosen : Table → Target → List Column
chosen t all = t.columns
chosen t (column c) = take 1 (drop c t.columns)

take_one {ℓ} :
    {A : Type ℓ} (xs : List A) (c : ℕ) {x : A}
    → get_elem? xs c ≡ some x
    → x ∷ [] ≡ take 1 (drop c xs)
take_one [] c e = cc
take_one (x ∷ xs) zero e = cc
take_one (x ∷ xs) (suc c) e = take_one xs c e

none_inside {ℓ} : {A : Type ℓ} (xs : List A) (c : ℕ) → c < length xs → get_elem? xs c ≢ none
none_inside [] c b e = absurd (omega arith)
none_inside (x ∷ xs) zero b e = cc
none_inside (x ∷ xs) (suc c) b e = none_inside xs c (omega arith) e

select_target-cases :
    (t : Table) (stmt : SelectStmt)
    → ((msg : Bytes) × (select_target t stmt ≡ fail msg))
      ⊎ ((target : Target) × TargetOf t stmt target)
unfolding select_target
select_target-cases t stmt = elim (Bool-cases (str_eq stmt.column_name (codes "*"))) [
  | inl e ↦ inr (all, (str_eq_iff _ _).0 e)
  | inr e ↦ elim (require_column-cases t stmt.table_name stmt.column_name) [
    | inl (msg, f) ↦ inl (msg, rw (select_target, e, f))
    | inr (c, f, g) ↦
        inr (column c, ((λ h. ground (arith, (str_eq_iff stmt.column_name (codes "*")).1 h)), g))
  ]
]

one_column :
    (t : Table) (c : ℕ)
    → c < length t.columns
    → select_columns t (column c) ≡ done (chosen t (column c))
unfolding select_columns
one_column t c b = elim (Option-cases (get_elem? t.columns c)) [
  | inl e ↦ absurd (none_inside t.columns c b e)
  | inr (col, e) ↦ rw (select_columns, e) (ap done (take_one t.columns c e))
]

select_target_lem :
    (t : Table) (stmt : SelectStmt) (target : Target)
    → TargetOf t stmt target
    → (select_target t stmt ≡ done target)
      × (select_columns t target ≡ done (chosen t target))
      × Fits (length t.columns) target
unfolding select_target select_columns
select_target_lem t stmt all e = (rw (select_target, (str_eq_iff _ _).1 e), refl, tt)
select_target_lem t stmt (column c) (n, f) =
    let (r, b) = require_column_lem t stmt.table_name stmt.column_name c f in
    let other : str_eq stmt.column_name (codes "*") ≡ false =
      elim (Bool-cases (str_eq stmt.column_name (codes "*"))) [
        | inl e ↦ absurd (n ((str_eq_iff _ _).0 e))
        | inr e ↦ e
      ] in
    (rw (select_target, other, r), one_column t c b, b)

-- The handler succeeded: the result table has the columns of the target, and the rows of the named
-- table that pass the clause, in their order and cut to the target; nothing else has changed.
pub record Selected {Disk : Type 0} (x : Executor Disk) (stmt : SelectStmt)
    (r : Executor Disk × ExecResult) : Type 0 where
  pub db : Database
  pub table : Table
  pub index : Entries
  pub target : Target
  pub where_col : ℤ
  pub in_use : x.current_db ≡ some db
  pub found : table_of db stmt.table_name ≡ some (table, index)
  pub selects : TargetOf table stmt target
  pub clause : Clause table stmt.has_where stmt.where_clause where_col
  pub columns : r.0.result_table.columns ≡ chosen table target
  pub rows :
      r.0.result_table.rows
      ≡ map (projected target) (keep (passes stmt.has_where stmt.where_clause where_col) table.rows)
  pub same : r.0 ≡ record x { result_table = r.0.result_table }
  pub answered : r.1 ≡ record (result_ok (codes "Query OK")) { has_table = true }

module _ {Disk : Type 0} (x : Executor Disk) (stmt : SelectStmt)
    (ready : IsReady WellFormed x) where
  -- On an open, valid database whose table has the selected column (or `*` is selected) and the column
  -- of the clause, if there is one, SELECT succeeds: the result table has the target's columns and
  -- exactly the rows that pass the clause, in their order and cut to the target, and nothing else of
  -- the executor has changed.
  pub exec_select-Selected :
      (db : Database) (t : Table) (e : Entries) (target : Target) (c : ℤ)
      → x.current_db ≡ some db
      → table_of db stmt.table_name ≡ some (t, e)
      → TargetOf t stmt target
      → Clause t stmt.has_where stmt.where_clause c
      → Returns (exec_select x stmt) (Selected x stmt)
  unfolding exec_select
  exec_select-Selected db t e target c u f tg cl =
      let (nn, v) = subst (DbReady WellFormed x.current_db_name) u ready in
      let (i, r, gn, tn, p) = require_table_found WellFormed db stmt.table_name t e v f in
      let (st, sc, fits) = select_target_lem t stmt target tg in
      let schema : result_schema (chosen t target)
          ≡ record (new_table (codes "__result__")) { columns = chosen t target } =
        unfold new_table in foldl-add_column (new_table (codes "__result__")) (chosen t target) in
      rw
        (
          exec_select,
          require_db_open x db u nn,
          r,
          st,
          where_column_lem t stmt.table_name stmt.has_where stmt.where_clause c cl,
          sc,
          select_loop_lem (passes stmt.has_where stmt.where_clause c) target (length t.columns)
              t.rows (result_schema (chosen t target)) fits p.widths,
          schema,
        )
        (unfold new_table in
          record {
            db = db;
            table = t;
            index = e;
            target = target;
            where_col = c;
            in_use = u;
            found = f;
            selects = tg;
            clause = cl;
            columns = refl;
            rows = refl;
            same = refl;
            answered = refl;
          })

  select-Refused :
      (db : Database) (t : Table) (e : Entries) (i : ℕ)
      → require_db x ≡ done db
      → require_table db stmt.table_name ≡ done (record { at = i; table = t; index = e })
      → x.current_db ≡ some db
      → table_of db stmt.table_name ≡ some (t, e)
      → Returns (exec_select x stmt) (λ r. Selected x stmt r ⊎ Refused x r)
  unfolding exec_select
  select-Refused db t e i d r u f = elim (select_target-cases t stmt) [
    | inl (msg, st) ↦ rw (exec_select, d, r, st) (inr (refl, refl))
    | inr (target, tg) ↦
        elim (where_column-cases t stmt.table_name stmt.has_where stmt.where_clause) [
          | inl (msg, wc) ↦
              let (st, _, _) = select_target_lem t stmt target tg in
              rw (exec_select, d, r, st, wc) (inr (refl, refl))
          | inr (c, wc, cl) ↦
              Returns_mono (exec_select x stmt) (Selected x stmt)
                (λ r. Selected x stmt r ⊎ Refused x r)
                (exec_select-Selected db t e target c u f tg cl) (λ r s. inl s)
        ]
  ]

  select_open :
      (db : Database)
      → x.current_db ≡ some db
      → DbReady WellFormed x.current_db_name (some db)
      → Returns (exec_select x stmt) (λ r. Selected x stmt r ⊎ Refused x r)
  unfolding exec_select
  select_open db u (nn, v) = elim (Option-cases (table_of db stmt.table_name)) [
    | inl absent ↦
        let (msg, r) = require_table_absent WellFormed db stmt.table_name v absent in
        rw (exec_select, require_db_open x db u nn, r) (inr (refl, refl))
    | inr ((t, e), f) ↦
        let (i, r, gn, tn, p) = require_table_found WellFormed db stmt.table_name t e v f in
        select-Refused db t e i (require_db_open x db u nn) r u f
  ]

  -- On an executor whose open database, if any, is valid, SELECT never faults: it fills the result
  -- table from the named table and changes nothing else, or it returns an error and changes nothing.
  pub exec_select-Outcome : Returns (exec_select x stmt) (λ r. Selected x stmt r ⊎ Refused x r)
  unfolding exec_select
  exec_select-Outcome =
      (elim x.current_db
          as (λ o.
            x.current_db ≡ o
            → DbReady WellFormed x.current_db_name o
            → Returns (exec_select x stmt) (λ r. Selected x stmt r ⊎ Refused x r)) [
              | none ↦ λ u n.
                  let (msg, e) = require_db_closed x n in rw (exec_select, e) (inr (refl, refl))
              | some db ↦ λ u d. select_open db u d
            ])
        refl ready
