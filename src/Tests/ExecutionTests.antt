-- ===== src/Tests/ExecutionTests.antt =====
-- Tests of src/execution: statements on the database of the fixtures.
use cpp_db.Storage.Table.{primary_key_index}
use mathlib.Core.Option
use cpp_db.Storage.Index
use cpp_db.Storage.Table.{add_column, new_table}
use cpp_db.Storage.Value.{compare}
use cpp_db.Execution.State.{Executor, result_error}
use cpp_db.Execution.Select.{exec_select, column}
use cpp_db.Execution.Where.Clauses.{Clause, Satisfies, matches_where_iff}
use cpp_db.Execution.Delete.Effect.{Deletes, exec_delete-Modified}
use cpp_db.Execution.Insert.Effect.{Inserts, exec_insert-Modified}
use cpp_db.Execution.Modify.{IsReady, Modified}
use cpp_db.Execution.Keys.{Keyed}
use cpp_db.Base.{
  List, Option, false, Bytes, ◌>>=◌, Returns, [], arith, atoi, codes, get_elem?, none, pos,
  print_int, refl, snprintf, some, true, ℤ, ◌++◌, ◌↔◌, ◌∷◌, ◌≡◌,
}
use cpp_db.Execution.Executor.Select.{Selected, TargetOf, exec_select-Selected}
use cpp_db.Parser.Ast.{SqlStatement}
use cpp_db.Execution.Update.Effect.{Updates, exec_update-Modified}
use cpp_db.Storage.Value.{Value}
use cpp_db.Execution.Outcome.{WellFormed}
use cpp_db.Tests.Fixtures.{
  ann, delete_1, id_at, id_is_1, in_town, in_town-Keyed, in_town-WellFormed, insert_1, insert_2,
  log_disk, name_at, people, people_found, people_index, rename_1, select_name, town,
}
use cpp_db.Execution.Insert.{build_row, exec_insert}
use cpp_db.Execution.Delete.{exec_delete}
use cpp_db.Execution.Insert.Keys.{exec_insert_duplicate}
use cpp_db.Execution.Update.{exec_update}
use cpp_db.Execution.Executor.{new_executor, execute}
use cpp_db.Execution.Executor.Invariant.{execute-IsReady, execute-Keyed}
use cpp_db.Execution.Insert.Rows.{key_of}
use cpp_db.Storage.Index.Lookup.{lookup}
use cpp_db.Execution.Where.{matches_where, parse_where_value}
use cpp_db.Execution.Compose.{exec_select-exec_insert, select_all}

-- The statements run.
delete_runs :
    Option.map (λ r. r.1.message) (exec_delete in_town delete_1) ≡ some (codes "1 row(s) deleted")
unfolding exec_delete compare atoi Index.remove
delete_runs = refl

insert_runs :
    Option.map (λ r. r.1.message) (exec_insert in_town insert_2) ≡ some (codes "1 row inserted")
unfolding exec_insert Index.find atoi Index.insert
insert_runs = refl

update_runs :
    Option.map (λ r. r.1.message) (exec_update in_town rename_1) ≡ some (codes "1 row(s) updated")
unfolding exec_update compare atoi
update_runs = refl

select_runs :
    Option.map (λ r. r.0.result_table.rows) (exec_select in_town select_name)
    ≡ some ((Value.string (codes "ann") ∷ []) ∷ [])
unfolding exec_select compare atoi add_column new_table
select_runs = refl

id-Clause : Clause people true id_is_1 (pos 0)
id-Clause = (0, refl, id_at)

exec_delete-Modified_example :
    Returns
      (exec_delete in_town delete_1)
      (Modified WellFormed (Deletes delete_1) in_town (codes "people"))
exec_delete-Modified_example =
    exec_delete-Modified in_town delete_1 town people people_index (pos 0) in_town-WellFormed refl
      people_found id-Clause

fresh_2 :
    (k : ℤ)
    → key_of (primary_key_index people) (build_row insert_2.values) ≡ some k
    → lookup people_index k ≡ none
unfolding primary_key_index build_row lookup atoi
fresh_2 k e = ground arith

exec_insert-Modified_example :
    Returns
      (exec_insert in_town insert_2)
      (Modified WellFormed (Inserts insert_2) in_town (codes "people"))
exec_insert-Modified_example =
    exec_insert-Modified in_town insert_2 town people people_index in_town-WellFormed refl
      people_found refl fresh_2

exec_update-Modified_example :
    Returns
      (exec_update in_town rename_1)
      (Modified WellFormed (Updates rename_1) in_town (codes "people"))
exec_update-Modified_example =
    exec_update-Modified in_town rename_1 town people people_index 1 (pos 0) in_town-WellFormed refl
      people_found name_at id-Clause

key_1 : key_of (primary_key_index people) ann ≡ some (pos 1)
unfolding primary_key_index
key_1 = refl

new_key_1 : key_of (primary_key_index people) (build_row insert_1.values) ≡ some (pos 1)
unfolding primary_key_index build_row atoi
new_key_1 = refl

exec_insert_duplicate_example :
    exec_insert in_town insert_1
    ≡ some (
      in_town,
      result_error (snprintf 256 (codes "Duplicate primary key: " ++ print_int (pos 1))),
    )
exec_insert_duplicate_example =
    exec_insert_duplicate in_town insert_1 town people people_index 0 ann (pos 1) in_town-Keyed refl
      people_found refl refl key_1 new_key_1

name_target : TargetOf people select_name (column 1)
name_target = (cc, name_at)

exec_select-Selected_example :
    Returns (exec_select in_town select_name) (Selected in_town select_name)
exec_select-Selected_example =
    exec_select-Selected in_town select_name in_town-WellFormed town people people_index (column 1)
      (pos 0) refl people_found name_target id-Clause

execute-IsReady_example :
    Returns
      (execute log_disk in_town (SqlStatement.use_database (codes "db2")))
      (λ r. IsReady WellFormed r.0)
execute-IsReady_example =
    execute-IsReady log_disk in_town in_town-WellFormed (SqlStatement.use_database (codes "db2"))
      (cc)

execute-Keyed_example :
    Returns (execute log_disk in_town (SqlStatement.insert insert_2)) (λ r. IsReady Keyed r.0)
execute-Keyed_example =
    execute-Keyed log_disk in_town in_town-Keyed (SqlStatement.insert insert_2) tt tt

matches_where_iff_example : (matches_where ann (pos 0) id_is_1 ≡ true) ↔ (
    (cell : Value) × (get_elem? ann 0 ≡ some cell)
    × Satisfies (codes "=") cell (parse_where_value id_is_1))
matches_where_iff_example = matches_where_iff ann 0 id_is_1

exec_select-exec_insert_example :
    Returns
      (exec_insert in_town insert_2 >>= λ r. exec_select r.0 (select_all (codes "people") id_is_1))
      (λ r. r.0.result_table.rows ≡ people.rows ++ build_row insert_2.values ∷ [])
exec_select-exec_insert_example =
    exec_select-exec_insert in_town insert_2 id_is_1 town people people_index in_town-WellFormed
      refl people_found refl fresh_2

-- A database that is opened, a table that is made in it, and a row.
abbrev three_statements : List SqlStatement
three_statements =
    SqlStatement.use_database (codes "db")
    ∷ SqlStatement.create_table (codes "people") (
        record { name = codes "id"; type = codes "int"; is_primary = true }
        ∷ record { name = codes "name"; type = codes "string"; is_primary = false }
        ∷ [])
    ∷ SqlStatement.insert insert_2
    ∷ []

abbrev new_server : Executor (List Bytes)
new_server = new_executor log_disk (codes "data") []
