-- ===== src/Storage/Database.antt =====
-- src/storage/database.hpp and database.cpp: a database as three parallel vectors, and the file of a
-- table (`Table::save_to_file` of table.cpp).
pub mod Slots
pub mod View
pub mod Tables
use cpp_db.Base.{
  ℕ, zero, suc, ◌+◌, ◌>>=◌, Bool, true, false, List, [], ◌∷◌, ◌++◌, Option, none, some, ℤ, pos,
  negsuc, Bytes, codes, str_eq, is_empty, ltb, if◌then◌else◌, length, print_nat, print_int,
  snprintf, map,
}
use mathlib.Core.List.{foldl}
use cpp_db.Core.Shift.{copy_cell, pop_back}
use cpp_db.Storage.Value.{Value, Row}
use cpp_db.Storage.Table.{ColumnType, Column, Table, new_table_in, add_column, primary_key_index}
use cpp_db.Storage.Index.{remove, Entries}
use cpp_db.Storage.Disk.{FileSystem}
use cpp_db.Core.Vector.{write}

pub record Database : Type 0 where
  pub name : Bytes
  pub data_dir : Bytes
  pub tables : List Table
  pub indexes : List Entries
  pub table_names : List Bytes

-- `Database(name)`
unfoldable pub new_database : Bytes → Database
new_database name = record {
  name = name;
  data_dir = [];
  tables = [];
  indexes = [];
  table_names = [];
}

-- The loop that `get_table`, `get_index` and `drop_table` share, from position `i` on: the position
-- of the first table with the name. The pointer that `get_table` returns is this position.
unfoldable pub find_slot_from : ℕ → List Bytes → Bytes → Option ℕ
unfolding str_eq
find_slot_from i [] name = none
find_slot_from i (n ∷ ns) name =
    let rest = find_slot_from (suc i) ns name in if str_eq n name then some i else rest

unfoldable pub find_slot : Database → Bytes → Option ℕ
unfolding find_slot_from
find_slot db name = find_slot_from 0 db.table_names name

-- `create_table`: the database, and whether the table was made. An empty index is added whether or
-- not there is a primary key.
unfoldable pub create_table : Database → Bytes → List Column → Database × Bool
unfolding find_slot new_table_in add_column
create_table db name columns = elim (find_slot db name) [
  | some i ↦ (db, false)
  | none ↦ (
    record db {
      tables = db.tables ++ foldl add_column (new_table_in name db.data_dir) columns ∷ [];
      indexes = db.indexes ++ [] ∷ [];
      table_names = db.table_names ++ name ∷ [];
    },
    true,
  )
]

-- The loop of `drop_table` that moves every later slot of the three vectors down by one, with fuel.
unfoldable pub shift_slots : ℕ → ℕ → Database → Option Database
unfolding copy_cell
shift_slots zero j db = none
shift_slots (suc f) j db = elim (ltb (suc j) (length db.table_names)) [
  | false ↦ some db
  | true ↦ copy_cell db.table_names j (suc j) >>= λ table_names.
      copy_cell db.tables j (suc j) >>= λ tables. copy_cell db.indexes j (suc j) >>= λ indexes.
      shift_slots f (suc j)
        (record db { tables = tables; indexes = indexes; table_names = table_names })
]

-- What `drop_table` does to the vectors at the position found. The size and one more are fuel enough.
unfoldable pub drop_slot : Database → ℕ → Option Database
unfolding shift_slots pop_back
drop_slot db i = shift_slots (suc (length db.table_names)) i db >>= λ shifted.
    some (record shifted {
      tables = pop_back shifted.tables;
      indexes = pop_back shifted.indexes;
      table_names = pop_back shifted.table_names;
    })

-- The path of a table's file with the ending: in the data directory, or, cut to 512 bytes, in the
-- working directory.
unfoldable pub table_file : Database → Bytes → Bytes → Bytes
unfolding snprintf
table_file db name ending =
    if is_empty db.data_dir
    then snprintf 512 (name ++ ending)
    else db.data_dir ++ (codes "/" ++ (name ++ ending))

-- `save_to_file`: the lines of the columns and of the rows.
abbrev pub print_type : ColumnType → Bytes
print_type ColumnType.int = codes "0"
print_type ColumnType.string = codes "1"

abbrev pub print_flag : Bool → Bytes
print_flag true = codes "1"
print_flag false = codes "0"

unfoldable pub print_columns : List Column → Bytes
print_columns [] = []
print_columns (c ∷ cs) =
    c.name
    ++ (codes " "
        ++ (print_type c.type
            ++ (codes " " ++ (print_flag c.is_primary ++ (codes "\n" ++ print_columns cs)))))

unfoldable pub print_value : Value → Bytes
unfolding print_int
print_value (Value.int n) = print_int n
print_value (Value.string s) = s
print_value Value.none = []

-- The values of a row from one that has a `|` before it.
unfoldable pub print_more : Row → Bytes
unfolding print_value
print_more [] = []
print_more (v ∷ vs) = codes "|" ++ (print_value v ++ print_more vs)

unfoldable pub print_row : Row → Bytes
unfolding print_more
print_row [] = []
print_row (v ∷ vs) = print_value v ++ print_more vs

unfoldable pub print_rows : List Row → Bytes
unfolding print_row
print_rows [] = []
print_rows (r ∷ rs) = print_row r ++ (codes "\n" ++ print_rows rs)

unfoldable pub save_text : Table → Bytes
unfolding print_columns print_rows print_nat
save_text t =
    print_nat (length t.columns)
    ++ (codes "\n"
        ++ (print_columns t.columns
            ++ (print_nat (length t.rows) ++ (codes "\n" ++ print_rows t.rows))))

module _ (fs : FileSystem) where
  open fs use {Disk, remove, write}

  -- `drop_table`: the database, the disk without the table's files, and whether the table was there.
  unfoldable pub drop_table : Database → Disk → Bytes → Option (Database × Disk × Bool)
  unfolding find_slot drop_slot table_file
  drop_table db disk name = elim (find_slot db name) [
    | none ↦ some (db, disk, false)
    | some i ↦ drop_slot db i >>= λ db'. some (
      db',
      remove (table_file db name (codes ".idx")) (remove (table_file db name (codes ".dat")) disk),
      true,
    )
  ]

  -- `save_to_file`
  unfoldable pub save_to_file : Table → Disk → Bool × Disk
  unfolding save_text
  save_to_file t disk = write t.data_path (save_text t) disk

  -- The loop of `save_all`, which stops at the first table that cannot be saved.
  unfoldable pub save_tables : List Table → Disk → Bool × Disk
  unfolding save_to_file
  save_tables [] disk = (true, disk)
  save_tables (t ∷ ts) disk =
      let (ok, disk') = save_to_file t disk in
      let rest = save_tables ts disk' in if ok then rest else (false, disk')

  -- `save_all`: nothing without a data directory.
  unfoldable pub save_all : Database → Disk → Bool × Disk
  unfolding save_tables
  save_all db disk = if is_empty db.data_dir then (false, disk) else save_tables db.tables disk
