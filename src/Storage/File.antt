-- ===== src/Storage/File.antt =====
-- `Table::load_from_file` of src/storage/table.cpp, with the functions of the C library that it reads a
-- file with. A file is the list of its bytes, none of them NUL, and `line_buf` is the bytes of one line.
pub mod Values
pub mod RoundTrip
use cpp_db.Base.{
  [], false, if◌then◌else◌, none, not, pos, pos_part, some, suc, true, zero, ℕ, ◌++◌, ◌==ℤ◌, ◌==◌,
  ◌||◌, ◌∷◌, Option, Bool, Bytes, List, ℤ, atoi,
}
use cpp_db.Storage.Value.{Value, Row}
use cpp_db.Storage.Table.{Column, ColumnType, Table}
use cpp_db.Storage.Disk.{FileSystem}

-- `fgets` with the room that is left: the line with its newline, and what is left of the file.
unfoldable pub fill : ℕ → Bytes → Bytes × Bytes
fill zero text = ([], text)
fill (suc room) [] = ([], [])
fill (suc room) (c ∷ cs) =
    let (line, rest) = fill room cs in if c == 10 then (c ∷ [], cs) else (c ∷ line, rest)

-- `fgets(line_buf, sizeof(line_buf), fp)`, none at the end of the file.
unfoldable pub fgets : Bytes → Option (Bytes × Bytes)
unfolding fill
fgets [] = none
fgets (c ∷ cs) = some (fill 8191 (c ∷ cs))

-- `strtok`: the delimiters before a token, its bytes, and the text behind the delimiter that ends it.
unfoldable pub skip_delimiters : (ℕ → Bool) → Bytes → Bytes
skip_delimiters is_delimiter [] = []
skip_delimiters is_delimiter (c ∷ cs) =
    let rest = skip_delimiters is_delimiter cs in if is_delimiter c then rest else c ∷ cs

unfoldable pub take_token : (ℕ → Bool) → Bytes → Bytes × Bytes
take_token is_delimiter [] = ([], [])
take_token is_delimiter (c ∷ cs) =
    let (token, rest) = take_token is_delimiter cs in
    if is_delimiter c then ([], cs) else (c ∷ token, rest)

unfoldable pub strtok : (ℕ → Bool) → Bytes → Option (Bytes × Bytes)
unfolding skip_delimiters take_token
strtok is_delimiter text = elim (skip_delimiters is_delimiter text) [
  | [] ↦ none
  | c ∷ cs ↦ some (take_token is_delimiter (c ∷ cs))
]

-- The delimiters of a column's line and of a row's.
abbrev pub is_blank : ℕ → Bool
is_blank c = c == b' ' || c == 9 || c == 10 || c == 13

abbrev pub is_bar : ℕ → Bool
is_bar c = c == b'|' || c == 10 || c == 13

-- The type and the flag behind a column's name.
unfoldable pub load_flags : Bytes → Bytes → Option Column
unfolding strtok atoi
load_flags name line1 = elim (strtok is_blank line1) [
  | none ↦ none
  | some (type_str, line2) ↦ elim (strtok is_blank line2) [
    | none ↦ none
    | some (pk_str, _) ↦ some (record {
      name = name;
      type = if atoi type_str ==ℤ pos 0 then ColumnType.int else ColumnType.string;
      is_primary = not (atoi pk_str ==ℤ pos 0);
    })
  ]
]

-- The column of a line.
unfoldable pub load_column : Bytes → Option Column
unfolding strtok load_flags
load_column line = elim (strtok is_blank line) [
  | none ↦ none
  | some (name, line1) ↦ load_flags name line1
]

-- The loop over the columns in the `n` rounds left: the columns, and what is left of the file unless a
-- line is missing or broken.
unfoldable pub load_columns : ℕ → Bytes → List Column → List Column × Option Bytes
unfolding fgets load_column
load_columns zero text columns = (columns, some text)
load_columns (suc n) text columns = elim (fgets text) [
  | none ↦ (columns, none)
  | some (line, rest) ↦ elim (load_column line) [
    | none ↦ (columns, none)
    | some c ↦ load_columns n rest (columns ++ c ∷ [])
  ]
]

-- The value of a token in a column.
abbrev pub load_value : ColumnType → Bytes → Value
load_value ColumnType.int token = Value.int (atoi token)
load_value ColumnType.string token = Value.string token

-- The loop over the tokens of a row's line.
unfoldable pub load_row : List Column → Bytes → Row
unfolding strtok atoi
load_row [] line = []
load_row (c ∷ cs) line = elim (strtok is_bar line) [
  | none ↦ []
  | some (token, rest) ↦ load_value c.type token ∷ load_row cs rest
]

-- The loop over the rows in the `n` rounds left, and whether every line was there.
unfoldable pub load_rows : List Column → ℕ → Bytes → List Row → List Row × Bool
unfolding fgets load_row
load_rows columns zero text rows = (rows, true)
load_rows columns (suc n) text rows = elim (fgets text) [
  | none ↦ (rows, false)
  | some (line, rest) ↦ load_rows columns n rest (rows ++ load_row columns line ∷ [])
]

-- The number on a line: how often a loop up to it runs.
abbrev pub rounds : Bytes → ℕ
rounds line = pos_part (atoi line)

-- `load_from_file` on the text of the file, from the number of the rows on.
unfoldable pub load_body : Table → Bytes → Table × Bool
unfolding fgets load_rows atoi
load_body t text = elim (fgets text) [
  | none ↦ (t, false)
  | some (line, rest) ↦
      let (rows, ok) = load_rows t.columns (rounds line) rest [] in (record t { rows = rows }, ok)
]

-- The same from the columns that were read, unless one was missing.
abbrev pub load_rest : Table → List Column × Option Bytes → Table × Bool
load_rest t (columns, none) = (record t { columns = columns }, false)
load_rest t (columns, some body) = load_body (record t { columns = columns }) body

unfoldable pub load_text : Table → Bytes → Table × Bool
unfolding fgets load_columns load_body atoi
load_text t text = elim (fgets text) [
  | none ↦ (t, false)
  | some (line, rest) ↦ load_rest t (load_columns (rounds line) rest [])
]

module _ (fs : FileSystem) where
  -- `load_from_file`
  unfoldable pub load_from_file : Table → fs.Disk → Table × Bool
  unfolding load_text
  load_from_file t disk = elim (fs.read t.data_path disk) [
    | none ↦ (t, false)
    | some text ↦ load_text t text
  ]
