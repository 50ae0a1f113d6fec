-- ===== src/Storage/Disk.antt =====
-- What the program uses of the file system, as an interface: POSIX and the C library are not modelled
-- here. Each call returns the new disk, and whether it succeeded where the program looks at that.
use cpp_db.Base.{Bool, Bytes, Option}

pub record FileSystem : Type 1 where
  pub Disk : Type 0
  -- `mkdir(path, 0755) == 0`
  pub mkdir : Bytes → Disk → Bool × Disk
  -- `rmdir(path) == 0`
  pub rmdir : Bytes → Disk → Bool × Disk
  -- `std::remove(path)`, whose result is never read
  pub remove : Bytes → Disk → Disk
  -- `fopen(path, "w")`, the text printed to it, `fclose`; false if the file cannot be opened
  pub write : Bytes → Bytes → Disk → Bool × Disk
  -- `fopen(path, "r")` and the text of the file; none if the file cannot be opened
  pub read : Bytes → Disk → Option Bytes
