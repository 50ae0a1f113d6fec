-- ===== src/Parser/Interface/Owned.antt =====
-- src/parser/parser_c.cpp: a statement that was parsed owns the blocks that its parsing has allocated.
use cpp_db.Base.{
  ◌∙◌, ap, Bytes, List, Returns, [], arith, length, none, refl, some, suc, ℕ, ◌∷◌, ◌≡◌, ◌++◌,
}
use cpp_db.Parser.Ast.{ColumnDef, Literal, SqlStatement}
use cpp_db.Parser.Statements.Bounds.{parse-Returns}
use cpp_db.Parser.Interface.{
  Block, Heap, MiniDbStmt, copy_columns, copy_values, flatten, flatten_columns, flatten_insert,
  minidb_parse, new_stmt,
}
use cpp_db.Parser.Interface.Blocks.{Holds, count, count-append}
use cpp_db.Parser.Interface.Memory.{IsWhole, column_blocks, owned, value_blocks}

copy_columns-Holds :
    (cs : List ColumnDef) (heap : Heap)
    → Holds (copy_columns cs heap).1.live (column_blocks (copy_columns cs heap).0) heap.live
unfolding copy_columns count
copy_columns-Holds [] heap a = omega arith
copy_columns-Holds (c ∷ cs) heap a =
    let h =
      copy_columns-Holds cs
        (record { next = suc (suc heap.next); live = suc heap.next ∷ heap.next ∷ heap.live }) a in
    ground arith

length-copy_columns :
    (cs : List ColumnDef) (heap : Heap) → length cs ≡ length (copy_columns cs heap).0
unfolding copy_columns
length-copy_columns [] heap = refl
length-copy_columns (c ∷ cs) heap = ap suc (
    length-copy_columns cs
      (record { next = suc (suc heap.next); live = suc heap.next ∷ heap.next ∷ heap.live }))

copy_values-Holds :
    (vs : List Literal) (heap : Heap)
    → Holds (copy_values vs heap).1.live (value_blocks (copy_values vs heap).0.0) heap.live
unfolding copy_values count
copy_values-Holds [] heap a = omega arith
copy_values-Holds (v ∷ vs) heap a =
    let h =
      copy_values-Holds vs (record { next = suc heap.next; live = heap.next ∷ heap.live }) a in
    ground arith

length-copy_values :
    (vs : List Literal) (heap : Heap) → length vs ≡ length (copy_values vs heap).0.0
unfolding copy_values
length-copy_values [] heap = refl
length-copy_values (v ∷ vs) heap =
    ap suc (length-copy_values vs (record { next = suc heap.next; live = heap.next ∷ heap.live }))

-- A statement that owns what was allocated in the heap, apart from other blocks.
pub record Owns (b : Block MiniDbStmt) (heap : Heap) (others : List ℕ) : Type 0 where
  pub whole : IsWhole b.content
  pub holds : Holds heap.live (owned b) others

-- The blocks of an array's elements, and the arrays that were allocated before them.
Holds-array :
    (live live' blocks others : List ℕ) (n address : ℕ)
    → Holds live' blocks (n ∷ live)
    → Holds live (address ∷ []) others
    → Holds live' (blocks ++ n ∷ address ∷ []) others
unfolding count
Holds-array live live' blocks others n address h k a =
    let p = h a in let q = k a in let r = count-append a blocks (n ∷ address ∷ []) in ground arith

Holds-arrays :
    (live live' blocks others : List ℕ) (m n address : ℕ)
    → Holds live' blocks (n ∷ m ∷ live)
    → Holds live (address ∷ []) others
    → Holds live' (blocks ++ m ∷ n ∷ address ∷ []) others
unfolding count
Holds-arrays live live' blocks others m n address h k a =
    let p = h a in
    let q = k a in let r = count-append a blocks (m ∷ n ∷ address ∷ []) in ground arith

new_stmt-Owns :
    (ast : SqlStatement) (address : ℕ) (heap : Heap) (others : List ℕ)
    → Holds heap.live (address ∷ []) others
    → Owns (record { address = address; content = new_stmt ast }) heap others
new_stmt-Owns ast address heap others h = record {
  whole = record { columns = λ b e. cc; values = λ b e. cc };
  holds = h;
}

flatten_columns-Owns :
    (ast : SqlStatement) (cs : List ColumnDef) (address : ℕ) (heap : Heap) (others : List ℕ)
    → Holds heap.live (address ∷ []) others
    → Owns
        (record { address = address; content = (flatten_columns cs (new_stmt ast) heap).0 })
        (flatten_columns cs (new_stmt ast) heap).1
        others
unfolding flatten_columns
flatten_columns-Owns ast [] address heap others h = new_stmt-Owns ast address heap others h
flatten_columns-Owns ast (c ∷ cs) address heap others h =
    let heap' : Heap = record { next = suc heap.next; live = heap.next ∷ heap.live } in
    record {
      whole = record {
        columns = λ b e.
            length-copy_columns (c ∷ cs) heap'
            ∙ ap (λ o. elim o [ none ↦ 0 | some array ↦ length array.content ]) e;
        values = λ b e. cc;
      };
      holds =
          Holds-array heap.live (copy_columns (c ∷ cs) heap').1.live
            (column_blocks (copy_columns (c ∷ cs) heap').0) others heap.next address
            (copy_columns-Holds (c ∷ cs) heap') h;
    }

flatten_insert-Owns :
    (ast : SqlStatement) (vs : List Literal) (address : ℕ) (heap : Heap) (others : List ℕ)
    → Holds heap.live (address ∷ []) others
    → Owns
        (record { address = address; content = (flatten_insert vs (new_stmt ast) heap).0 })
        (flatten_insert vs (new_stmt ast) heap).1
        others
unfolding flatten_insert
flatten_insert-Owns ast [] address heap others h = new_stmt-Owns ast address heap others h
flatten_insert-Owns ast (v ∷ vs) address heap others h =
    let heap' : Heap = record {
      next = suc (suc heap.next);
      live = suc heap.next ∷ heap.next ∷ heap.live;
    } in
    record {
      whole = record {
        columns = λ b e. cc;
        values = λ b e.
            length-copy_values (v ∷ vs) heap'
            ∙ ap (λ o. elim o [ none ↦ 0 | some array ↦ length array.content ]) e;
      };
      holds =
          Holds-arrays heap.live (copy_values (v ∷ vs) heap').1.live
            (value_blocks (copy_values (v ∷ vs) heap').0.0) others heap.next (suc heap.next) address
            (copy_values-Holds (v ∷ vs) heap') h;
    }

flatten-Owns :
    (ast : SqlStatement) (address : ℕ) (heap : Heap) (others : List ℕ)
    → Holds heap.live (address ∷ []) others
    → Owns
        (record { address = address; content = (flatten ast (new_stmt ast) heap).0 })
        (flatten ast (new_stmt ast) heap).1
        others
unfolding flatten
flatten-Owns (SqlStatement.create_table name columns) address heap others h =
    flatten_columns-Owns (SqlStatement.create_table name columns) columns address heap others h
flatten-Owns (SqlStatement.insert s) address heap others h =
    flatten_insert-Owns (SqlStatement.insert s) s.values address heap others h
flatten-Owns (SqlStatement.create_database n) address heap others h =
    new_stmt-Owns (SqlStatement.create_database n) address heap others h
flatten-Owns (SqlStatement.drop_database n) address heap others h =
    new_stmt-Owns (SqlStatement.drop_database n) address heap others h
flatten-Owns (SqlStatement.use_database n) address heap others h =
    new_stmt-Owns (SqlStatement.use_database n) address heap others h
flatten-Owns (SqlStatement.drop_table n) address heap others h =
    new_stmt-Owns (SqlStatement.drop_table n) address heap others h
flatten-Owns (SqlStatement.select s) address heap others h =
    new_stmt-Owns (SqlStatement.select s) address heap others h
flatten-Owns (SqlStatement.delete s) address heap others h =
    new_stmt-Owns (SqlStatement.delete s) address heap others h
flatten-Owns (SqlStatement.update s) address heap others h =
    new_stmt-Owns (SqlStatement.update s) address heap others h
flatten-Owns (SqlStatement.invalid m) address heap others h =
    new_stmt-Owns (SqlStatement.invalid m) address heap others h

-- A statement that was parsed owns what its parsing has allocated.
pub minidb_parse-Owns :
    (sql : Bytes) (heap : Heap) → Returns (minidb_parse sql heap) (λ r. Owns r.0 r.1 heap.live)
unfolding minidb_parse
minidb_parse-Owns sql heap =
    let (ast, e) = parse-Returns sql in
    rw (minidb_parse, e)
      (flatten-Owns ast heap.next (record { next = suc heap.next; live = heap.next ∷ heap.live })
        heap.live (λ a. count-append a (heap.next ∷ []) heap.live))
