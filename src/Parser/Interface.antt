-- ===== src/Parser/Interface.antt =====
-- src/parser/parser_c.cpp and include/minidb/parser.h: the C interface of the parser. A statement
-- owns blocks that `new` allocates; the accessors write what they read to the caller's variables. The texts of a
-- statement come from a C string, so they hold no NUL.
pub mod Blocks
pub mod Memory
pub mod Owned
pub mod Lifetime
pub mod Accessors
pub mod Caller
pub mod Readback
use cpp_db.Base.{
  ◌>>=◌, Bool, Bytes, List, Option, [], codes, if◌then◌else◌, length, none, some, suc, zero, ℕ, ◌∷◌,
  ◌==◌,
}
use cpp_db.Parser.Ast.{ColumnDef, Literal, SqlStatement, WhereClause}
use cpp_db.Parser.Statements.{parse}
use cpp_db.Parser.Cursor.{return}

-- The blocks that are allocated, by their addresses, and the address of the next.
pub record Heap : Type 0 where
  pub next : ℕ
  pub live : List ℕ

-- A block with what it holds.
pub record Block (A : Type 0) : Type 0 where
  pub address : ℕ
  pub content : A

-- `new`
abbrev pub allocate : {A : Type 0} → A → Heap → Block A × Heap
allocate content heap = (
  record { address = heap.next; content = content },
  record { next = suc heap.next; live = heap.next ∷ heap.live },
)

-- `delete` of an address: none if no such block is allocated.
unfoldable pub release : ℕ → List ℕ → Option (List ℕ)
release a [] = none
release a (b ∷ live) =
    let rest = release a live in
    if a == b then some live else elim rest [ none ↦ none | some left ↦ some (b ∷ left) ]

-- `MiniDB_ColumnDef`
pub record MiniDbColumnDef : Type 0 where
  pub name : Block Bytes
  pub type : Block Bytes
  pub is_primary : ℕ

-- `MiniDB_WhereClause`
pub record MiniDbWhereClause : Type 0 where
  pub column : Bytes
  pub op : Bytes
  pub const_value : Bytes
  pub is_int_literal : ℕ

-- `MiniDB_Stmt`: a null pointer is none.
pub record MiniDbStmt : Type 0 where
  pub ast : SqlStatement
  pub columns : Option (Block (List MiniDbColumnDef))
  pub column_count : ℕ
  pub insert_values : Option (Block (List (Block Bytes)))
  pub insert_is_int : Option (Block (List ℕ))
  pub value_count : ℕ
  pub error_buf : Option (Block Bytes)
  pub kind_name_buf : Option (Block Bytes)

-- `b ? 1 : 0`
abbrev pub int_flag : Bool → ℕ
int_flag b = if b then 1 else 0

-- `strdup_own`
abbrev pub strdup_own : Bytes → Heap → Block Bytes × Heap
strdup_own s heap = allocate s heap

-- The loop of `flatten_columns`.
unfoldable pub copy_columns : List ColumnDef → Heap → List MiniDbColumnDef × Heap
copy_columns [] heap = ([], heap)
copy_columns (c ∷ cs) heap =
    let (name, heap1) = strdup_own c.name heap in
    let (type, heap2) = strdup_own c.type heap1 in
    let (columns, heap3) = copy_columns cs heap2 in
    (record { name = name; type = type; is_primary = int_flag c.is_primary } ∷ columns, heap3)

-- `flatten_columns`
unfoldable pub flatten_columns : List ColumnDef → MiniDbStmt → Heap → MiniDbStmt × Heap
unfolding copy_columns
flatten_columns [] stmt heap = (record stmt { column_count = 0 }, heap)
flatten_columns (c ∷ cs) stmt heap =
    let array = heap.next in
    let (columns, heap1) =
      copy_columns (c ∷ cs) (record { next = suc heap.next; live = heap.next ∷ heap.live }) in
    (
      record stmt {
        columns = some (record { address = array; content = columns });
        column_count = length (c ∷ cs);
      },
      heap1,
    )

-- The loop of `flatten_insert`.
unfoldable pub copy_values : List Literal → Heap → (List (Block Bytes) × List ℕ) × Heap
copy_values [] heap = (([], []), heap)
copy_values (v ∷ vs) heap =
    let (value, heap1) = strdup_own v.text heap in
    let ((values, is_int), heap2) = copy_values vs heap1 in
    ((value ∷ values, int_flag v.is_int ∷ is_int), heap2)

-- `flatten_insert`
unfoldable pub flatten_insert : List Literal → MiniDbStmt → Heap → MiniDbStmt × Heap
unfolding copy_values
flatten_insert [] stmt heap = (record stmt { value_count = 0 }, heap)
flatten_insert (v ∷ vs) stmt heap =
    let array = heap.next in
    let ((values, is_int), heap1) =
      copy_values (v ∷ vs)
        (record { next = suc (suc array); live = suc array ∷ array ∷ heap.live }) in
    (
      record stmt {
        insert_values = some (record { address = array; content = values });
        insert_is_int = some (record { address = suc array; content = is_int });
        value_count = length (v ∷ vs);
      },
      heap1,
    )

-- The constructor of `MiniDB_Stmt`, with the statement that `minidb_parse` stores.
abbrev pub new_stmt : SqlStatement → MiniDbStmt
new_stmt ast = record {
  ast = ast;
  columns = none;
  column_count = 0;
  insert_values = none;
  insert_is_int = none;
  value_count = 0;
  error_buf = none;
  kind_name_buf = none;
}

-- The arrays of a statement, by its kind.
unfoldable pub flatten : SqlStatement → MiniDbStmt → Heap → MiniDbStmt × Heap
unfolding flatten_columns flatten_insert
flatten (SqlStatement.create_table _ columns) stmt heap = flatten_columns columns stmt heap
flatten (SqlStatement.insert s) stmt heap = flatten_insert s.values stmt heap
flatten _ stmt heap = (stmt, heap)

-- `minidb_parse`: the statement with its address.
unfoldable pub minidb_parse : Bytes → Heap → Option (Block MiniDbStmt × Heap)
unfolding parse flatten
minidb_parse sql heap = elim (parse sql) [
  | none ↦ none
  | some ast ↦
      let (stmt, heap1) =
        flatten ast (new_stmt ast)
          (record { next = suc heap.next; live = heap.next ∷ heap.live }) in
      some (record { address = heap.next; content = stmt }, heap1)
]

-- `delete[]` of a pointer that may be null.
abbrev pub release_block : {A : Type 0} → Option (Block A) → List ℕ → Option (List ℕ)
release_block none live = some live
release_block (some b) live = release b.address live

-- The loop of `minidb_stmt_free` over the columns: none if it reads behind the array.
unfoldable pub free_columns : ℕ → List MiniDbColumnDef → List ℕ → Option (List ℕ)
unfolding release
free_columns zero columns live = some live
free_columns (suc n) [] live = none
free_columns (suc n) (c ∷ cs) live = do
  live1 ← release c.name.address live
  live2 ← release c.type.address live1
  free_columns n cs live2

-- The loop over the values.
unfoldable pub free_values : ℕ → List (Block Bytes) → List ℕ → Option (List ℕ)
unfolding release
free_values zero values live = some live
free_values (suc n) [] live = none
free_values (suc n) (v ∷ vs) live = do live1 ← release v.address live; free_values n vs live1

-- The destructor of `MiniDB_Stmt`.
unfoldable pub destroy_stmt : MiniDbStmt → List ℕ → Option (List ℕ)
unfolding release
destroy_stmt stmt live = do
  live1 ← release_block stmt.columns live
  live2 ← release_block stmt.insert_values live1
  live3 ← release_block stmt.insert_is_int live2
  live4 ← release_block stmt.error_buf live3
  release_block stmt.kind_name_buf live4

-- `minidb_stmt_free`
unfoldable pub minidb_stmt_free : Block MiniDbStmt → List ℕ → Option (List ℕ)
unfolding free_columns free_values destroy_stmt release
minidb_stmt_free b live = do
  live1 ← elim b.content.columns [
    | none ↦ some live
    | some columns ↦ free_columns b.content.column_count columns.content live
  ]
  live2 ← elim b.content.insert_values [
    | none ↦ some live1
    | some values ↦ free_values b.content.value_count values.content live1
  ]
  live3 ← destroy_stmt b.content live2
  release b.address live3

-- `minidb_stmt_error`: the text, the statement with its buffer, and the heap.
unfoldable pub minidb_stmt_error : MiniDbStmt → Heap → Option (Bytes × MiniDbStmt × Heap)
unfolding release
minidb_stmt_error stmt heap = elim stmt.ast [
  | SqlStatement.invalid msg ↦ do
    live ← release_block stmt.error_buf heap.live
    let (buf, heap1) = strdup_own msg (record { next = heap.next; live = live })
    some (msg, record stmt { error_buf = some buf }, heap1)
  | _ ↦ some ([], stmt, heap)
]
