-- ===== src/Tests/StorageTests.antt =====
-- Tests of src/storage: values, the index, tables and databases.
use cpp_db.Storage.Index.{Entries, Entry, find_pos, insert, remove, find}
use cpp_db.Storage.Value.{Value, compare}
use cpp_db.Storage.Database.{
  new_database, save_to_file, print_more, print_row, print_value, save_text, create_table,
  drop_table,
}
use cpp_db.Storage.Database.Tables.{
  CreateOutcome, DropOutcome, create_table-CreateOutcome, drop_table-DropOutcome,
}
use cpp_db.Storage.Index.Search.{Finds, IsSorted, find_pos-Finds}
use cpp_db.Storage.Table.Columns.{FirstColumn, HasName, find_column-FirstColumn}
use cpp_db.Storage.Index.Insert.{Inserted, insert-Inserted}
use cpp_db.Storage.Database.View.{IsValid}
use cpp_db.Storage.Index.Remove.{Removed, remove-Removed}
use cpp_db.Base.{
  false, Bytes, List, Option, ap, print_int, print_nat, str_eq, str_eq_refl, subst, Returns, [],
  arith, codes, if◌then◌else◌, negsuc, none, pos, refl, some, true, ℕ, ◌↔◌, ◌∷◌, ◌≡◌,
}
use cpp_db.Execution.Outcome.{WellFormed}
use cpp_db.Storage.Value.Order.{compare-eq_iff, compare_trans}
use cpp_db.Core.Shift.{erase, shift_right}
use cpp_db.Storage.Index.Lookup.{find-lookup, lookup}
use cpp_db.Storage.Table.{find_column}
use cpp_db.Tests.Fixtures.{id_column, in_town-WellFormed, log_disk, people, town}
use cpp_db.Storage.Disk.{FileSystem}
use cpp_db.Storage.File.RoundTrip.{IsStorableTable, ReadsBack, load_from_file-save_to_file}
use cpp_db.Execution.Ddl.{make_db_path}
use cpp_db.Storage.Registry.{current_db, use_database}
use cpp_db.Storage.File.{load_from_file, load_text}

abbrev entry : ℕ → ℕ → Entry
entry key row_id = record { key = pos key; row_id = row_id }

abbrev three : Entries
three = entry 2 0 ∷ entry 5 1 ∷ entry 9 2 ∷ []

three-IsSorted : IsSorted three
three-IsSorted = omega arith

insert_runs : insert three (pos 7) 3 ≡ some (entry 2 0 ∷ entry 5 1 ∷ entry 7 3 ∷ entry 9 2 ∷ [])
unfolding insert shift_right
insert_runs = refl

remove_runs : remove three (pos 5) ≡ some (entry 2 0 ∷ entry 9 2 ∷ [], true)
unfolding remove erase
remove_runs = refl

find_runs : (find three (pos 9) ≡ some (some 2)) × (find three (pos 4) ≡ some none)
unfolding find
find_runs = (refl, refl)

find_pos-Finds_example : Finds three (pos 5) (find_pos three (pos 5))
find_pos-Finds_example = find_pos-Finds three (pos 5) three-IsSorted

find-lookup_example : find three (pos 5) ≡ some (lookup three (pos 5))
find-lookup_example = find-lookup three (pos 5) three-IsSorted

insert-Inserted_example : Returns (insert three (pos 7) 3) (Inserted three (pos 7) 3)
insert-Inserted_example = insert-Inserted three (pos 7) 3 three-IsSorted

remove-Removed_example : Returns (remove three (pos 5)) (Removed three (pos 5))
remove-Removed_example = remove-Removed three (pos 5) three-IsSorted

compare-eq_iff_example :
    (compare (Value.int (pos 3)) (Value.int (pos 3)) ≡ pos 0)
    ↔ (Value.int (pos 3) ≡ Value.int (pos 3))
compare-eq_iff_example = compare-eq_iff (Value.int (pos 3)) (Value.int (pos 3))

int_before_string : compare (Value.int (pos 3)) (Value.string (codes "a")) ≡ negsuc 0
unfolding compare
int_before_string = refl

a_before_b : compare (Value.string (codes "a")) (Value.string (codes "b")) ≡ negsuc 0
unfolding compare
a_before_b = refl

compare_trans_example : compare (Value.int (pos 3)) (Value.string (codes "b")) ≡ negsuc 0
compare_trans_example =
    compare_trans (Value.int (pos 3)) (Value.string (codes "a")) (Value.string (codes "b"))
      int_before_string a_before_b

find_column-FirstColumn_example :
    FirstColumn (HasName (codes "name")) people.columns (find_column people (codes "name"))
find_column-FirstColumn_example = find_column-FirstColumn people (codes "name")

town-IsValid : IsValid WellFormed town
town-IsValid = in_town-WellFormed.1

create_table-CreateOutcome_example :
    CreateOutcome WellFormed town town-IsValid
      (codes "cats")
      (id_column ∷ [])
      (create_table town (codes "cats") (id_column ∷ []))
create_table-CreateOutcome_example =
    create_table-CreateOutcome WellFormed town town-IsValid (codes "cats") (id_column ∷ [])

drop_table-DropOutcome_example :
    Returns
      (drop_table log_disk town [] (codes "people"))
      (DropOutcome WellFormed town town-IsValid (codes "people") log_disk [])
drop_table-DropOutcome_example =
    drop_table-DropOutcome WellFormed town town-IsValid (codes "people") log_disk []

-- A disk that keeps the texts of its files, the last one written first.
stored : Bytes → List (Bytes × Bytes) → Option Bytes
stored path [] = none
stored path ((name, text) ∷ files) =
    let rest = stored path files in if str_eq name path then some text else rest

abbrev files_disk : FileSystem
files_disk = record {
  Disk = List (Bytes × Bytes);
  mkdir = λ path disk. (true, disk);
  rmdir = λ path disk. (true, disk);
  remove = λ path disk. disk;
  write = λ path text disk. (true, (path, text) ∷ disk);
  read = stored;
}

files_disk-ReadsBack : ReadsBack files_disk
unfolding stored
files_disk-ReadsBack path text disk disk' written =
    subst (λ d. stored path d ≡ some text) (ap (λ r. r.1) written)
      (rw (stored, str_eq_refl path) refl)

people-IsStorableTable : IsStorableTable people
unfolding print_row print_more print_value print_int print_nat
people-IsStorableTable = record {
  columns = (
    record { named = λ e. cc; unblank = (refl, (refl, tt)); short = ground arith },
    (
      record {
        named = λ e. cc;
        unblank = (refl, (refl, (refl, (refl, tt))));
        short = ground arith;
      },
      tt,
    ),
  );
  rows = (
    record {
      fits = (ground arith, ((λ e. cc, (refl, (refl, (refl, tt)))), tt));
      short = ground arith;
    },
    tt,
  );
  few_columns = ground arith;
  few_rows = ground arith;
}

loading_runs :
    load_text (record people { columns = []; rows = [] }) (save_text people) ≡ (people, true)
unfolding load_text save_text
loading_runs = refl

saving_runs : save_to_file files_disk people [] ≡ (true, (people.data_path, save_text people) ∷ [])
unfolding save_to_file
saving_runs = refl

load_from_file-save_to_file_example :
    load_from_file files_disk
      (record people { columns = []; rows = [] })
      ((people.data_path, save_text people) ∷ [])
    ≡ (people, true)
load_from_file-save_to_file_example =
    load_from_file-save_to_file files_disk files_disk-ReadsBack people
      (record people { columns = []; rows = [] }) [] ((people.data_path, save_text people) ∷ [])
      people-IsStorableTable refl saving_runs

-- A second call keeps the first one's name and tables under the second one's directory.
used_twice :
    current_db (
      use_database
        (codes "d")
        (codes "b")
        (use_database (codes "d") (codes "a") (record { static_db = none; is_current = false })))
    ≡ some (record (new_database (codes "a")) { data_dir = codes "d/b" })
unfolding use_database new_database make_db_path
used_twice = refl
