-- ===== src/Execution/Ddl.antt =====
-- The handlers of src/execution/executor.cpp for databases and tables, with `create_database` and
-- `make_db_path` of src/storage/database.cpp.
use cpp_db.Base.{
  Bool, true, false, List, [], ◌++◌, Option, none, some, Bytes, codes, str_eq, map, if◌then◌else◌,
  snprintf,
}
use cpp_db.Storage.Table.{Column, type_from_string}
use cpp_db.Storage.Disk.{FileSystem}
use cpp_db.Storage.Database.{Database, new_database, save_all}
use cpp_db.Storage.Database
use cpp_db.Parser.Ast.{ColumnDef}
use cpp_db.Execution.State.{
  must, Executor, ExecResult, result_ok, result_error, done, ◌>>=◌, conclude, about, require_db,
}

-- `make_db_path`, which the handlers also write out in place.
unfoldable pub make_db_path : Bytes → Bytes → Bytes
make_db_path data_root dbname = data_root ++ (codes "/" ++ dbname)

-- The conversion of a column definition.
unfoldable pub to_column : ColumnDef → Column
unfolding type_from_string
to_column cd = record {
  name = cd.name;
  type = type_from_string cd.type;
  is_primary = cd.is_primary;
}

-- `if (!ok) error(buf) else ok(buf)` on a flag.
abbrev pub report : Bool → Bytes → Bytes → ExecResult
report true good bad = result_ok good
report false good bad = result_error bad

module _ (fs : FileSystem) where
  open fs use {Disk, mkdir, rmdir}

  -- `storage::create_database`
  unfoldable pub create_database : Bytes → Bytes → Disk → Bool × Disk
  unfolding make_db_path
  create_database data_root dbname disk =
      let (_, disk') = mkdir data_root disk in mkdir (make_db_path data_root dbname) disk'

  unfoldable pub exec_create_database : Executor Disk → Bytes → Option (Executor Disk × ExecResult)
  unfolding create_database snprintf
  exec_create_database x name =
      let (made, disk') = create_database x.data_root name x.disk in
      some (
        record x { disk = disk' },
        report made (about "Database '" name "' created")
            (about "Failed to create database '" name "'"),
      )

  -- The database dropped while it is in use is saved and closed first; `none` is the call of
  -- `save_all` through a null pointer.
  unfoldable pub close_if_current : Executor Disk → Bytes → Option (Executor Disk)
  unfolding str_eq save_all
  close_if_current x name =
      if str_eq x.current_db_name name
      then elim x.current_db [
        | none ↦ none
        | some db ↦
            some (record x {
              current_db = none;
              current_db_name = [];
              disk = (save_all fs db x.disk).1;
            })
      ]
      else some x

  unfoldable pub exec_drop_database : Executor Disk → Bytes → Option (Executor Disk × ExecResult)
  unfolding close_if_current make_db_path snprintf
  exec_drop_database x name = elim (close_if_current x name) [
    | none ↦ none
    | some y ↦
        let (gone, disk') = rmdir (make_db_path y.data_root name) y.disk in
        some (
          record y { disk = disk' },
          report gone (about "Database '" name "' dropped")
              (about "Failed to drop database '" name "'"),
        )
  ]

  -- The disk after the previous database, if any, is saved.
  unfoldable pub saved_disk : Executor Disk → Disk
  unfolding save_all
  saved_disk x = elim x.current_db [ none ↦ x.disk | some db ↦ (save_all fs db x.disk).1 ]

  unfoldable pub exec_use : Executor Disk → Bytes → Option (Executor Disk × ExecResult)
  unfolding saved_disk make_db_path new_database snprintf
  exec_use x name = some (
    record x {
      disk = saved_disk x;
      current_db_name = name;
      current_db = some (record (new_database name) { data_dir = make_db_path x.data_root name });
    },
    result_ok (about "Using database '" name "'"),
  )

  unfoldable pub exec_create_table :
      Executor Disk → Bytes → List ColumnDef → Option (Executor Disk × ExecResult)
  unfolding require_db to_column Database.create_table snprintf
  exec_create_table x name defs = conclude x (do
    db ← require_db x
    let (db', made) = Database.create_table db name (map to_column defs)
    done (
      record x { current_db = some db' },
      report made (about "Table '" name "' created") (about "Table '" name "' already exists"),
    ))

  unfoldable pub exec_drop_table : Executor Disk → Bytes → Option (Executor Disk × ExecResult)
  unfolding require_db Database.drop_table snprintf
  exec_drop_table x name = conclude x (do
    db ← require_db x
    (db', disk', dropped) ← must (Database.drop_table fs db x.disk name)
    done (
      record x { current_db = some db'; disk = disk' },
      report dropped (about "Table '" name "' dropped") (about "Table '" name "' does not exist"),
    ))
