-- ===== src/Storage/File/Values.antt =====
-- src/storage/table.cpp: what `strtok` and `fgets` find in a text that `save_to_file` prints.
use cpp_db.Base.{
  All-append, length-append, sym, ◌∙◌, [], ap, arith, codes, false, length, refl, some, suc, true,
  zero, ℕ, ◌++◌, ◌<◌, ◌==◌, ◌∷◌, ◌≡◌, ◌≢◌, Bytes, Bool, All, List,
}
use cpp_db.Storage.Table.{Column, ColumnType}
use cpp_db.Storage.File.{
  load_columns, load_flags, fgets, fill, is_blank, load_column, skip_delimiters, strtok, take_token,
}
use cpp_db.Storage.Database.{print_columns, print_flag, print_type}
use mathlib.Core.List.{append-nil, append_assoc}

module _ (is_delimiter : ℕ → Bool) where
  -- The bytes of a token.
  abbrev pub InToken : ℕ → Type 0
  InToken c = is_delimiter c ≡ false

  take_token-append :
      (token rest : Bytes) (d : ℕ)
      → All InToken token
      → is_delimiter d ≡ true
      → take_token is_delimiter (token ++ d ∷ rest) ≡ (token, rest)
  unfolding take_token
  take_token-append [] rest d h e = rw (take_token, e) refl
  take_token-append (c ∷ cs) rest d (h, k) e =
      rw (take_token, h, take_token-append cs rest d k e) refl

  -- A token before a delimiter is found, and the text goes on behind the delimiter.
  pub strtok-append :
      (token rest : Bytes) (d : ℕ)
      → token ≢ []
      → All InToken token
      → is_delimiter d ≡ true
      → strtok is_delimiter (token ++ d ∷ rest) ≡ some (token, rest)
  unfolding strtok skip_delimiters take_token
  strtok-append [] rest d n h e = absurd (n refl)
  strtok-append (c ∷ cs) rest d n (h, k) e =
      rw (strtok, skip_delimiters, h, take_token, h, take_token-append cs rest d k e) refl

-- The bytes of a line.
abbrev pub InRecord : ℕ → Type 0
InRecord c = (c == 10) ≡ false

fill-append :
    (room : ℕ) (line rest : Bytes)
    → All InRecord line
    → length line < room
    → fill room (line ++ 10 ∷ rest) ≡ (line ++ 10 ∷ [], rest)
unfolding fill
fill-append zero line rest h lt = absurd (omega arith)
fill-append (suc room) [] rest h lt = refl
fill-append (suc room) (c ∷ cs) rest (h, k) lt =
    rw (fill, h, fill-append room cs rest k (omega arith)) refl

-- A line that the buffer holds is read with its newline.
pub fgets-append :
    (line rest : Bytes)
    → All InRecord line
    → length line < 8191
    → fgets (line ++ 10 ∷ rest) ≡ some (line ++ 10 ∷ [], rest)
unfolding fgets
fgets-append [] rest h lt = ap some (fill-append 8191 [] rest h lt)
fgets-append (c ∷ cs) rest h lt = ap some (fill-append 8191 (c ∷ cs) rest h lt)

-- The line of a column, without its newline.
abbrev pub column_line : Bytes → ColumnType → Bool → Bytes
column_line name type is_primary =
    name ++ (codes " " ++ (print_type type ++ (codes " " ++ print_flag is_primary)))

-- A name that a line of the file can hold.
pub record IsStorable (c : Column) : Type 0 where
  pub named : c.name ≢ []
  pub unblank : All (InToken is_blank) c.name
  pub short : length c.name < 8187

flags_read :
    (name : Bytes) (type : ColumnType) (is_primary : Bool)
    → load_flags name (print_type type ++ (codes " " ++ print_flag is_primary) ++ 10 ∷ [])
      ≡ some (record { name = name; type = type; is_primary = is_primary })
unfolding load_flags
flags_read name ColumnType.int true = refl
flags_read name ColumnType.int false = refl
flags_read name ColumnType.string true = refl
flags_read name ColumnType.string false = refl

load_column-name :
    (name tail : Bytes)
    → name ≢ []
    → All (InToken is_blank) name
    → load_column (name ++ 32 ∷ tail) ≡ load_flags name tail
unfolding load_column
load_column-name name tail n h = rw (load_column, strtok-append is_blank name tail 32 n h refl) refl

-- A column is read back from its line.
pub load_column-line :
    (c : Column)
    → IsStorable c
    → load_column (column_line c.name c.type c.is_primary ++ 10 ∷ []) ≡ some c
load_column-line c s =
    ap load_column (
      append_assoc c.name
        (codes " " ++ (print_type c.type ++ (codes " " ++ print_flag c.is_primary))) (10 ∷ []))
    ∙ load_column-name c.name _ s.named s.unblank
    ∙ flags_read c.name c.type c.is_primary

-- The flags have no newline, and take four bytes with their blanks.
flags_line :
    (type : ColumnType) (is_primary : Bool)
    → All InRecord (codes " " ++ (print_type type ++ (codes " " ++ print_flag is_primary)))
      × (length (codes " " ++ (print_type type ++ (codes " " ++ print_flag is_primary))) ≡ 4)
flags_line ColumnType.int true = ((refl, (refl, (refl, (refl, tt)))), refl)
flags_line ColumnType.int false = ((refl, (refl, (refl, (refl, tt)))), refl)
flags_line ColumnType.string true = ((refl, (refl, (refl, (refl, tt)))), refl)
flags_line ColumnType.string false = ((refl, (refl, (refl, (refl, tt)))), refl)

pub All-InRecord :
    (is_delimiter : ℕ → Bool)
    → ((c : ℕ) → is_delimiter c ≡ false → InRecord c)
    → (cs : Bytes) → All (InToken is_delimiter) cs
    → All InRecord cs
All-InRecord is_delimiter k [] h = tt
All-InRecord is_delimiter k (c ∷ cs) (h, g) = (k c h, All-InRecord is_delimiter k cs g)

pub fgets-column :
    (c : Column) (rest : Bytes)
    → IsStorable c
    → fgets (column_line c.name c.type c.is_primary ++ 10 ∷ rest)
      ≡ some (column_line c.name c.type c.is_primary ++ 10 ∷ [], rest)
fgets-column c rest s =
    let (plain, four) = flags_line c.type c.is_primary in
    fgets-append (column_line c.name c.type c.is_primary) rest
      (All-append InRecord c.name _ (All-InRecord is_blank (λ d e. ground arith) c.name s.unblank)
        plain)
      (omega (
        arith,
        s.short,
        four,
        length-append c.name
            (codes " " ++ (print_type c.type ++ (codes " " ++ print_flag c.is_primary))),
      ))

split :
    (name flags : Bytes) (cs : List Column) (rest : Bytes)
    → (name ++ 32 ∷ (flags ++ 10 ∷ print_columns cs)) ++ rest
      ≡ (name ++ 32 ∷ flags) ++ 10 ∷ (print_columns cs ++ rest)
split name flags cs rest =
    append_assoc name (32 ∷ (flags ++ 10 ∷ print_columns cs)) rest
    ∙ ap (λ text. name ++ 32 ∷ text) (append_assoc flags (10 ∷ print_columns cs) rest)
    ∙ sym (append_assoc name (32 ∷ flags) (10 ∷ (print_columns cs ++ rest)))

-- The lines of the columns, one after the other.
columns_text :
    (name : Bytes) (type : ColumnType) (is_primary : Bool) (cs : List Column) (rest : Bytes)
    → print_columns (record { name = name; type = type; is_primary = is_primary } ∷ cs) ++ rest
      ≡ column_line name type is_primary ++ 10 ∷ (print_columns cs ++ rest)
unfolding print_columns
columns_text name ColumnType.int true cs rest = split name (48 ∷ 32 ∷ 49 ∷ []) cs rest
columns_text name ColumnType.int false cs rest = split name (48 ∷ 32 ∷ 48 ∷ []) cs rest
columns_text name ColumnType.string true cs rest = split name (49 ∷ 32 ∷ 49 ∷ []) cs rest
columns_text name ColumnType.string false cs rest = split name (49 ∷ 32 ∷ 48 ∷ []) cs rest

-- The columns are read back, and the file goes on behind them.
pub load_columns-print_columns :
    (cs before : List Column) (rest : Bytes)
    → All IsStorable cs
    → load_columns (length cs) (print_columns cs ++ rest) before ≡ (before ++ cs, some rest)
unfolding load_columns print_columns
load_columns-print_columns [] before rest h = ap (λ cs. (cs, some rest)) (sym (append-nil before))
load_columns-print_columns (c ∷ cs) before rest (h, k) =
    ap (λ text. load_columns (suc (length cs)) text before)
      (columns_text c.name c.type c.is_primary cs rest)
    ∙ rw (load_columns, fgets-column c (print_columns cs ++ rest) h, load_column-line c h)
        (load_columns-print_columns cs (before ++ c ∷ []) rest k)
    ∙ ap (λ columns. (columns, some rest)) (append_assoc before (c ∷ []) cs)
