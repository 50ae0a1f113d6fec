-- ===== src/Parser/Interface/Memory.antt =====
-- src/parser/parser_c.cpp: what a statement allocates is released once.
use cpp_db.Base.{
  Bytes, List, Option, [], arith, length, none, refl, some, suc, zero, ℕ, ◌∷◌, ◌≡◌, ◌++◌,
}
use cpp_db.Parser.Interface.{
  Block, MiniDbColumnDef, MiniDbStmt, destroy_stmt, free_columns, free_values, minidb_stmt_free,
  release, release_block,
}
use cpp_db.Parser.Interface.Blocks.{Frees, Frees-bind, Frees-release, Frees-skip}

-- The blocks of the columns' texts, of the values' texts and of a pointer.
abbrev pub column_blocks : List MiniDbColumnDef → List ℕ
column_blocks [] = []
column_blocks (c ∷ cs) = c.name.address ∷ c.type.address ∷ column_blocks cs

abbrev pub value_blocks : List (Block Bytes) → List ℕ
value_blocks [] = []
value_blocks (v ∷ vs) = v.address ∷ value_blocks vs

abbrev pub pointer_block : {A : Type 0} → Option (Block A) → List ℕ
pointer_block none = []
pointer_block (some b) = b.address ∷ []

abbrev pub array_columns : MiniDbStmt → List ℕ
array_columns stmt = elim stmt.columns [ none ↦ [] | some b ↦ column_blocks b.content ]

abbrev pub array_values : MiniDbStmt → List ℕ
array_values stmt = elim stmt.insert_values [ none ↦ [] | some b ↦ value_blocks b.content ]

-- The blocks that the destructor releases.
abbrev pub member_blocks : MiniDbStmt → List ℕ
member_blocks stmt =
    pointer_block stmt.columns
    ++ (pointer_block stmt.insert_values
        ++ (pointer_block stmt.insert_is_int
            ++ (pointer_block stmt.error_buf ++ pointer_block stmt.kind_name_buf)))

-- The blocks that a statement owns.
abbrev pub owned : Block MiniDbStmt → List ℕ
owned b =
    array_columns b.content
    ++ (array_values b.content ++ (member_blocks b.content ++ b.address ∷ []))

-- The counts of a statement are the sizes of its arrays.
pub record IsWhole (stmt : MiniDbStmt) : Type 0 where
  pub columns :
      (b : Block (List MiniDbColumnDef))
      → stmt.columns ≡ some b
      → stmt.column_count ≡ length b.content
  pub values :
      (b : Block (List (Block Bytes)))
      → stmt.insert_values ≡ some b
      → stmt.value_count ≡ length b.content

Frees-free_columns :
    (n : ℕ) (cs : List MiniDbColumnDef)
    → n ≡ length cs
    → Frees (free_columns n cs) (column_blocks cs)
unfolding free_columns
Frees-free_columns zero [] h = Frees-skip
Frees-free_columns zero (c ∷ cs) h = absurd (omega arith)
Frees-free_columns (suc n) [] h = absurd (omega arith)
Frees-free_columns (suc n) (c ∷ cs) h =
    Frees-bind (release c.name.address) _ (c.name.address ∷ []) _ (Frees-release c.name.address) (
      Frees-bind (release c.type.address) (free_columns n cs) (c.type.address ∷ []) _
        (Frees-release c.type.address) (Frees-free_columns n cs (omega arith)))

Frees-free_values :
    (n : ℕ) (vs : List (Block Bytes)) → n ≡ length vs → Frees (free_values n vs) (value_blocks vs)
unfolding free_values
Frees-free_values zero [] h = Frees-skip
Frees-free_values zero (v ∷ vs) h = absurd (omega arith)
Frees-free_values (suc n) [] h = absurd (omega arith)
Frees-free_values (suc n) (v ∷ vs) h =
    Frees-bind (release v.address) (free_values n vs) (v.address ∷ []) _ (Frees-release v.address)
      (Frees-free_values n vs (omega arith))

pub Frees-release_block :
    {A : Type 0} (p : Option (Block A)) → Frees (release_block p) (pointer_block p)
Frees-release_block none = Frees-skip
Frees-release_block (some b) = Frees-release b.address

Frees-destroy_stmt : (stmt : MiniDbStmt) → Frees (destroy_stmt stmt) (member_blocks stmt)
unfolding destroy_stmt
Frees-destroy_stmt stmt = Frees-bind _ _ _ _ (Frees-release_block stmt.columns) (
    Frees-bind _ _ _ _ (Frees-release_block stmt.insert_values) (
      Frees-bind _ _ _ _ (Frees-release_block stmt.insert_is_int) (
        Frees-bind _ _ _ _ (Frees-release_block stmt.error_buf)
          (Frees-release_block stmt.kind_name_buf))))

Frees-columns :
    (p : Option (Block (List MiniDbColumnDef))) (n : ℕ)
    → ((b : Block (List MiniDbColumnDef)) → p ≡ some b → n ≡ length b.content)
    → Frees
        (λ live. elim p [ none ↦ some live | some columns ↦ free_columns n columns.content live ])
        (elim p [ none ↦ [] | some b ↦ column_blocks b.content ])
Frees-columns none n h = Frees-skip
Frees-columns (some b) n h = Frees-free_columns n b.content (h b refl)

Frees-values :
    (p : Option (Block (List (Block Bytes)))) (n : ℕ)
    → ((b : Block (List (Block Bytes))) → p ≡ some b → n ≡ length b.content)
    → Frees
        (λ live. elim p [ none ↦ some live | some values ↦ free_values n values.content live ])
        (elim p [ none ↦ [] | some b ↦ value_blocks b.content ])
Frees-values none n h = Frees-skip
Frees-values (some b) n h = Frees-free_values n b.content (h b refl)

-- `minidb_stmt_free` releases the blocks that the statement owns.
pub Frees-minidb_stmt_free :
    (b : Block MiniDbStmt) → IsWhole b.content → Frees (minidb_stmt_free b) (owned b)
unfolding minidb_stmt_free
Frees-minidb_stmt_free b w =
    Frees-bind _ _ _ _ (Frees-columns b.content.columns b.content.column_count w.columns) (
      Frees-bind _ _ _ _ (Frees-values b.content.insert_values b.content.value_count w.values)
        (Frees-bind _ _ _ _ (Frees-destroy_stmt b.content) (Frees-release b.address)))
