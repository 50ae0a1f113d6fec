-- ===== src/Storage/Registry.antt =====
-- The registry at the end of src/storage/database.cpp, which the program does not call: the executor has
-- fields of its own for it. Its one `Database` is a static variable of `use_database`.
use cpp_db.Base.{if◌then◌else◌, Bool, Bytes, Option, is_empty, none, not, some, true}
use cpp_db.Execution.Ddl.{make_db_path}
use cpp_db.Storage.Disk.{FileSystem}
use cpp_db.Storage.Database.{Database, new_database}

-- The static database once a call has made it, and whether `g_current_db` points to it.
pub record Registry : Type 0 where
  pub static_db : Option Database
  pub is_current : Bool

-- `use_database`: the name counts in the first call only.
unfoldable pub use_database : Bytes → Bytes → Registry → Registry
unfolding new_database make_db_path
use_database data_root dbname r =
    let db : Database = elim r.static_db [ none ↦ new_database dbname | some old ↦ old ] in
    record {
      static_db = some (record db { data_dir = make_db_path data_root dbname });
      is_current = true;
    }

-- `current_db`
abbrev pub current_db : Registry → Option Database
current_db r = if r.is_current then r.static_db else none

-- `load_all`, which loads nothing.
abbrev pub load_all : Database → Bool
load_all db = not (is_empty db.data_dir)

-- `drop_database`
abbrev pub drop_database : (fs : FileSystem) → Bytes → Bytes → fs.Disk → Bool × fs.Disk
drop_database fs data_root dbname disk = fs.rmdir (make_db_path data_root dbname) disk
