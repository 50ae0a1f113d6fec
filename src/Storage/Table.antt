-- ===== src/Storage/Table.antt =====
-- src/storage/column.hpp, column.cpp, table.hpp and table.cpp: columns, and a table's schema and rows
-- in memory.
pub mod Columns
pub mod Rows
use cpp_db.Base.{
  ◌>>=◌, ◌>>=◌, some, ℕ, zero, suc, Bool, true, false, List, [], ◌∷◌, ◌++◌, ℤ, pos, negsuc, leb,
  ltb, if◌then◌else◌, Bytes, codes, str_eq, length, set, get_elem?, Option,
}
use cpp_db.Core.Shift.{erase}
use cpp_db.Storage.Value.{Value, Row}
use cpp_db.Core.Vector.{index}

pub data ColumnType : Type 0 where
  int string : ColumnType

pub record Column : Type 0 where
  pub name : Bytes
  pub type : ColumnType
  pub is_primary : Bool

-- `Column::type_from_string`
unfoldable pub type_from_string : Bytes → ColumnType
unfolding str_eq
type_from_string s = if str_eq s (codes "int") then ColumnType.int else ColumnType.string

pub record Table : Type 0 where
  pub name : Bytes
  pub data_path : Bytes
  pub columns : List Column
  pub rows : List Row

-- `Table(name)`
unfoldable pub new_table : Bytes → Table
new_table name = record { name = name; data_path = name ++ codes ".dat"; columns = []; rows = [] }

-- `Table(name, data_dir)`
unfoldable pub new_table_in : Bytes → Bytes → Table
new_table_in name data_dir = record {
  name = name;
  data_path = data_dir ++ (codes "/" ++ (name ++ codes ".dat"));
  columns = [];
  rows = [];
}

unfoldable pub add_column : Table → Column → Table
add_column t col = record t { columns = t.columns ++ col ∷ [] }

-- The loops of `find_column` and `primary_key_index`, from the column with number `i` on.
unfoldable pub find_column_from : ℕ → List Column → Bytes → ℤ
unfolding str_eq
find_column_from i [] col_name = negsuc 0
find_column_from i (c ∷ cs) col_name =
    let rest = find_column_from (suc i) cs col_name in
    if str_eq c.name col_name then pos i else rest

unfoldable pub primary_key_from : ℕ → List Column → ℤ
primary_key_from i [] = negsuc 0
primary_key_from i (c ∷ cs) =
    let rest = primary_key_from (suc i) cs in if c.is_primary then pos i else rest

-- The number of the first column with the name, or -1.
unfoldable pub find_column : Table → Bytes → ℤ
unfolding find_column_from
find_column t col_name = find_column_from 0 t.columns col_name

-- The number of the first primary-key column, or -1.
unfoldable pub primary_key_index : Table → ℤ
unfolding primary_key_from
primary_key_index t = primary_key_from 0 t.columns

unfoldable pub insert_row : Table → Row → Table
insert_row t row = record t { rows = t.rows ++ row ∷ [] }

-- `remove_row`: the loop shifts the rows above down by one.
unfoldable pub remove_row : Table → ℕ → Option Table
unfolding erase
remove_row t index =
    if leb (length t.rows) index
    then some t
    else erase t.rows index >>= λ rows. some (record t { rows = rows })

unfoldable pub update_row : Table → ℕ → Row → Table
update_row t index new_row =
    if ltb index (length t.rows) then record t { rows = set t.rows index new_row } else t
