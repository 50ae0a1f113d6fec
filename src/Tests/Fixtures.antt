-- ===== src/Tests/Fixtures.antt =====
-- The concrete values that the tests share: a disk that logs its calls, and a database with one table
-- of one row.
use cpp_db.Base.{
  none, Bytes, List, [], arith, codes, false, pos, refl, some, str_eq, true, ◌∷◌, ◌≡◌, ◌≢◌,
}
use cpp_db.Storage.Table.{Column, ColumnType, Table, find_column, primary_key_index}
use cpp_db.Storage.Database.{Database}
use cpp_db.Parser.Ast.{DeleteStmt, InsertStmt, SelectStmt, UpdateStmt, WhereClause}
use cpp_db.Storage.Index.{Entries}
use cpp_db.Execution.State.{Executor}
use cpp_db.Storage.Disk.{FileSystem}
use cpp_db.Execution.Modify.{IsReady}
use cpp_db.Execution.Keys.{Keyed}
use cpp_db.Storage.Value.{Row, Value}
use cpp_db.Execution.Outcome.{WellFormed}
use cpp_db.Storage.Index.Lookup.{lookup}
use cpp_db.Storage.Database.View.{table_of}

-- A disk on which every call succeeds, as the log of the paths.
abbrev pub log_disk : FileSystem
log_disk = record {
  Disk = List Bytes;
  mkdir = λ path disk. (true, path ∷ disk);
  rmdir = λ path disk. (true, path ∷ disk);
  remove = λ path disk. path ∷ disk;
  write = λ path text disk. (true, path ∷ disk);
  read = λ path disk. none;
}

abbrev pub id_column : Column
id_column = record { name = codes "id"; type = ColumnType.int; is_primary = true }

abbrev pub name_column : Column
name_column = record { name = codes "name"; type = ColumnType.string; is_primary = false }

abbrev pub ann : Row
ann = Value.int (pos 1) ∷ Value.string (codes "ann") ∷ []

abbrev pub people : Table
people = record {
  name = codes "people";
  data_path = codes "data/db/people.dat";
  columns = id_column ∷ name_column ∷ [];
  rows = ann ∷ [];
}

abbrev pub people_index : Entries
people_index = record { key = pos 1; row_id = 0 } ∷ []

abbrev pub town : Database
town = record {
  name = codes "db";
  data_dir = codes "data/db";
  tables = people ∷ [];
  indexes = people_index ∷ [];
  table_names = codes "people" ∷ [];
}

abbrev pub in_town : Executor (List Bytes)
in_town = record {
  data_root = codes "data";
  current_db_name = codes "db";
  current_db = some town;
  result_table = people;
  disk = [];
}

-- `where id = 1`
abbrev pub id_is_1 : WhereClause
id_is_1 = record {
  column = codes "id";
  op = codes "=";
  const_value = codes "1";
  is_int_literal = true;
}

abbrev pub delete_1 : DeleteStmt
delete_1 = record { table_name = codes "people"; has_where = true; where_clause = id_is_1 }

-- `insert into people values (2, "bob")`
abbrev pub insert_2 : InsertStmt
insert_2 = record {
  table_name = codes "people";
  values =
      record { text = codes "2"; is_int = true }
      ∷ record { text = codes "bob"; is_int = false }
      ∷ [];
}

-- `insert into people values (1, "eve")`
abbrev pub insert_1 : InsertStmt
insert_1 = record insert_2 {
  values =
      record { text = codes "1"; is_int = true }
      ∷ record { text = codes "eve"; is_int = false }
      ∷ [];
}

-- `update people set name = "al" where id = 1`
abbrev pub rename_1 : UpdateStmt
rename_1 = record {
  table_name = codes "people";
  set_column = codes "name";
  set_value = codes "al";
  set_is_int = false;
  has_where = true;
  where_clause = id_is_1;
}

-- `select name from people where id = 1`
abbrev pub select_name : SelectStmt
select_name = record {
  column_name = codes "name";
  table_name = codes "people";
  has_where = true;
  where_clause = id_is_1;
}

pub people-WellFormed : WellFormed people people_index
people-WellFormed = record { sorted = (tt, tt); widths = (refl, tt) }

pub people-Keyed : Keyed people people_index
unfolding primary_key_index lookup
people-Keyed = record {
  well_formed = people-WellFormed;
  indexed = (λ k e. ground arith, tt);
  unique = (tt, tt);
}

db_named : codes "db" ≢ []
db_named = cc

pub in_town-WellFormed : IsReady WellFormed in_town
in_town-WellFormed =
    (db_named, record { aligned = (refl, people-WellFormed, tt); distinct = (tt, tt) })

pub in_town-Keyed : IsReady Keyed in_town
in_town-Keyed = (db_named, record { aligned = (refl, people-Keyed, tt); distinct = (tt, tt) })

-- The table is found, and its columns are.
pub people_found : table_of town (codes "people") ≡ some (people, people_index)
unfolding str_eq
people_found = refl

pub id_at : find_column people (codes "id") ≡ pos 0
unfolding find_column
id_at = refl

pub name_at : find_column people (codes "name") ≡ pos 1
unfolding find_column
name_at = refl
