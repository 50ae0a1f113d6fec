-- ===== src/Storage/File/RoundTrip.antt =====
-- src/storage/table.cpp: `load_from_file` restores what `save_to_file` has written.
use cpp_db.Base.{
  All-append, atoi-print_int, atoi-print_nat, length, length-print_nat, magnitude, pos_part,
  print_nat, some, sym, true, ◌^◌, ◌∙◌, All-print_nat, IsInt, [], ap, arith, atoi, negsuc, pos,
  print_int, print_nat_present, refl, suc, ℕ, ℤ, ◌++◌, ◌+◌, ◌<◌, ◌∷◌, ◌≡◌, ◌≢◌, Bytes, All, List,
}
use cpp_db.Storage.Table.{Table, Column, ColumnType}
use cpp_db.Storage.File.Values.{
  All-InRecord, InRecord, IsStorable, fgets-append, load_columns-print_columns, strtok-append,
  InToken,
}
use cpp_db.Storage.Value.{Row, Value}
use cpp_db.Storage.File.{
  load_from_file, fgets, load_body, load_rows, load_text, rounds, is_bar, load_row, load_value,
}
use cpp_db.Storage.Database.{
  save_to_file, print_columns, print_rows, save_text, print_more, print_row, print_value,
}
use mathlib.Core.List.{append-nil, append_assoc}
use cpp_db.Storage.Disk.{FileSystem}

-- A cell that a line of the file can hold, of its column's type.
abbrev pub IsCell : ColumnType → Value → Type 0
IsCell ColumnType.int (Value.int z) = IsInt z
IsCell ColumnType.string (Value.string s) = (s ≢ []) × All (InToken is_bar) s
IsCell _ _ = ⊥

abbrev pub FitsRow : List Column → Row → Type 0
FitsRow [] [] = Unit
FitsRow (c ∷ cs) (v ∷ vs) = IsCell c.type v × FitsRow cs vs
FitsRow _ _ = ⊥

-- What the file keeps of a cell.
record Kept (type : ColumnType) (v : Value) : Type 0 where
  present : print_value v ≢ []
  unbarred : All (InToken is_bar) (print_value v)
  loaded : load_value type (print_value v) ≡ v

digit_unbarred : (d : ℕ) → d < 10 → InToken is_bar (b'0' + d)
digit_unbarred d h = ground arith

print_int-kept : (z : ℤ) → (print_int z ≢ []) × All (InToken is_bar) (print_int z)
unfolding print_int
print_int-kept (pos n) = (print_nat_present n, All-print_nat (InToken is_bar) digit_unbarred n)
print_int-kept (negsuc n) = (λ e. cc, (refl, All-print_nat (InToken is_bar) digit_unbarred (suc n)))

IsCell-Kept : (type : ColumnType) (v : Value) → IsCell type v → Kept type v
unfolding print_value magnitude
IsCell-Kept ColumnType.int (Value.int z) h =
    let (n, b) = print_int-kept z in
    record {
      present = n;
      unbarred = b;
      loaded =
          ap Value.int
            (ap atoi (sym (append-nil (print_int z))) ∙ atoi-print_int z [] h (λ n. refl));
    }
IsCell-Kept ColumnType.int (Value.string s) h = absurd h
IsCell-Kept ColumnType.int Value.none h = absurd h
IsCell-Kept ColumnType.string (Value.string s) (n, b) = record {
  present = n;
  unbarred = b;
  loaded = refl;
}
IsCell-Kept ColumnType.string (Value.int z) h = absurd h
IsCell-Kept ColumnType.string Value.none h = absurd h

-- The line of a row is read back.
load_row-print_row :
    (cs : List Column) (r : Row) → FitsRow cs r → load_row cs (print_row r ++ 10 ∷ []) ≡ r
unfolding load_row print_row print_more
load_row-print_row [] [] h = refl
load_row-print_row [] (v ∷ vs) h = absurd h
load_row-print_row (c ∷ cs) [] h = absurd h
load_row-print_row (c ∷ []) (v ∷ []) (h, _) =
    let k = IsCell-Kept c.type v h in
    ap (load_row (c ∷ [])) (append_assoc (print_value v) [] (10 ∷ []))
    ∙ rw (load_row, strtok-append is_bar (print_value v) [] 10 k.present k.unbarred refl)
        (ap (λ x. x ∷ []) k.loaded)
load_row-print_row (c ∷ d ∷ cs) (v ∷ []) (h, k) = absurd k
load_row-print_row (c ∷ cs) (v ∷ w ∷ ws) (h, g) =
    let k = IsCell-Kept c.type v h in
    let rest : Bytes = print_row (w ∷ ws) ++ 10 ∷ [] in
    ap (load_row (c ∷ cs)) (append_assoc (print_value v) (print_more (w ∷ ws)) (10 ∷ []))
    ∙ rw (load_row, strtok-append is_bar (print_value v) rest b'|' k.present k.unbarred refl)
        (ap (λ x. x ∷ load_row cs rest) k.loaded
          ∙ ap (λ r. v ∷ r) (load_row-print_row cs (w ∷ ws) g))

-- The line of a row has no newline.
more-InRecord : (cs : List Column) (r : Row) → FitsRow cs r → All InRecord (print_more r)
unfolding print_more
more-InRecord [] [] h = tt
more-InRecord [] (v ∷ vs) h = absurd h
more-InRecord (c ∷ cs) [] h = tt
more-InRecord (c ∷ cs) (v ∷ vs) (h, k) = (
  refl,
  All-append InRecord (print_value v) (print_more vs)
      (All-InRecord is_bar (λ d e. ground arith) (print_value v) (IsCell-Kept c.type v h).unbarred)
      (more-InRecord cs vs k),
)

row-InRecord : (cs : List Column) (r : Row) → FitsRow cs r → All InRecord (print_row r)
unfolding print_row
row-InRecord cs [] h = tt
row-InRecord [] (v ∷ vs) h = absurd h
row-InRecord (c ∷ cs) (v ∷ vs) h = (more-InRecord (c ∷ cs) (v ∷ vs) h).1

-- A row that the file can hold: its cells have their columns' types, and its line fits the buffer.
pub record IsStorableRow (cs : List Column) (r : Row) : Type 0 where
  pub fits : FitsRow cs r
  pub short : length (print_row r) < 8191

load_rows-print_rows :
    (cs : List Column) (rs before : List Row)
    → All (IsStorableRow cs) rs
    → load_rows cs (length rs) (print_rows rs) before ≡ (before ++ rs, true)
unfolding load_rows print_rows
load_rows-print_rows cs [] before h = ap (λ rs. (rs, true)) (sym (append-nil before))
load_rows-print_rows cs (r ∷ rs) before (h, k) =
    rw
      (
        load_rows,
        fgets-append (print_row r) (print_rows rs) (row-InRecord cs r h.fits) h.short,
        load_row-print_row cs r h.fits,
      )
      (load_rows-print_rows cs rs (before ++ r ∷ []) k)
    ∙ ap (λ rows. (rows, true)) (append_assoc before (r ∷ []) rs)

-- The line of a number.
fgets-print_nat :
    (n : ℕ) (rest : Bytes) → fgets (print_nat n ++ 10 ∷ rest) ≡ some (print_nat n ++ 10 ∷ [], rest)
fgets-print_nat n rest =
    fgets-append (print_nat n) rest (All-print_nat InRecord (λ d h. ground arith) n)
      (omega (arith, length-print_nat n))

rounds-print_nat : (n : ℕ) → n < 2 ^ 31 → rounds (print_nat n ++ 10 ∷ []) ≡ n
unfolding magnitude
rounds-print_nat n h = ap pos_part (atoi-print_nat n (10 ∷ []) h refl)

-- A table that its file can hold.
pub record IsStorableTable (t : Table) : Type 0 where
  pub columns : All IsStorable t.columns
  pub rows : All (IsStorableRow t.columns) t.rows
  pub few_columns : length t.columns < 2 ^ 31
  pub few_rows : length t.rows < 2 ^ 31

load_body-save :
    (u : Table) (cs : List Column) (rs : List Row)
    → All (IsStorableRow cs) rs
    → length rs < 2 ^ 31
    → load_body (record u { columns = cs }) (print_nat (length rs) ++ 10 ∷ print_rows rs)
      ≡ (record u { columns = cs; rows = rs }, true)
unfolding load_body
load_body-save u cs rs h few =
    rw
      (
        load_body,
        fgets-print_nat (length rs) (print_rows rs),
        rounds-print_nat (length rs) few,
        load_rows-print_rows cs rs [] h,
      )
      refl

-- Loading the text that `save_to_file` writes restores the columns and the rows of the table, whatever
-- the table held before, if the names and the strings are not empty and have no byte that separates
-- them, every cell has the type of its column, and each line fits the buffer.
pub load_text-save_text :
    (u t : Table)
    → IsStorableTable t
    → load_text u (save_text t) ≡ (record u { columns = t.columns; rows = t.rows }, true)
unfolding load_text save_text
load_text-save_text u t s =
    let body : Bytes = print_nat (length t.rows) ++ 10 ∷ print_rows t.rows in
    rw
      (
        load_text,
        fgets-print_nat (length t.columns) (print_columns t.columns ++ body),
        rounds-print_nat (length t.columns) s.few_columns,
        load_columns-print_columns t.columns [] body s.columns,
      )
      (load_body-save u t.columns t.rows s.rows s.few_rows)

module _ (fs : FileSystem) where
  -- A file that was written is read as it was written.
  abbrev pub ReadsBack : Type 0
  ReadsBack =
      (path text : Bytes) (disk disk' : fs.Disk)
      → fs.write path text disk ≡ (true, disk')
      → fs.read path disk' ≡ some text

  -- On a disk that gives back what is written, a table that is saved is loaded again: its columns and
  -- its rows are restored in any table with the same file, if the names and the strings are not empty and
  -- have no byte that separates them, every cell has the type of its column, and each line fits the
  -- buffer.
  pub load_from_file-save_to_file :
      ReadsBack
      → (t u : Table) (disk disk' : fs.Disk) → IsStorableTable t
      → u.data_path ≡ t.data_path
      → save_to_file fs t disk ≡ (true, disk')
      → load_from_file fs u disk' ≡ (record u { columns = t.columns; rows = t.rows }, true)
  unfolding load_from_file save_to_file
  load_from_file-save_to_file back t u disk disk' s same saved =
      let there : fs.read u.data_path disk' ≡ some (save_text t) =
        ap (λ path. fs.read path disk') same ∙ back t.data_path (save_text t) disk disk' saved in
      rw (load_from_file, there) (load_text-save_text u t s)
