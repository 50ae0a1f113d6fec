-- ===== src/Parser/Interface/Lifetime.antt =====
-- src/parser/parser_c.cpp: a statement from its parsing to its release.
use cpp_db.Base.{
  Returns-bind, ◌>>=◌, Bytes, List, Option, Returns, [], arith, none, refl, some, suc, zero, ℕ, ◌+◌,
  ◌∷◌, ◌≡◌, ◌++◌,
}
use cpp_db.Parser.Ast.{SqlStatement}
use cpp_db.Parser.Interface.{
  Block, Heap, MiniDbStmt, minidb_parse, minidb_stmt_error, minidb_stmt_free, release_block,
}
use cpp_db.Parser.Interface.Blocks.{SameBlocks, count, count-append}
use cpp_db.Parser.Interface.Memory.{
  Frees-minidb_stmt_free, Frees-release_block, array_columns, array_values, owned, pointer_block,
}
use cpp_db.Parser.Interface.Owned.{Owns, minidb_parse-Owns}

-- The blocks that a statement owns with another error buffer.
abbrev owned_with : Block MiniDbStmt → Option (Block Bytes) → List ℕ
owned_with b error_buf = owned (record b { content = record b.content { error_buf = error_buf } })

count-parts :
    (a : ℕ) (cols vals p q r e k z : List ℕ)
    → count a (cols ++ (vals ++ ((p ++ (q ++ (r ++ (e ++ k)))) ++ z)))
      ≡ count a e
        + (count a cols
            + (count a vals + (count a p + (count a q + (count a r + (count a k + count a z))))))
count-parts a cols vals p q r e k z = omega (
  arith,
  count-append a cols (vals ++ ((p ++ (q ++ (r ++ (e ++ k)))) ++ z)),
  count-append a vals ((p ++ (q ++ (r ++ (e ++ k)))) ++ z),
  count-append a (p ++ (q ++ (r ++ (e ++ k)))) z,
  count-append a p (q ++ (r ++ (e ++ k))),
  count-append a q (r ++ (e ++ k)),
  count-append a r (e ++ k),
  count-append a e k,
)

-- Another error buffer changes the blocks by its own.
count-owned_with :
    (a : ℕ) (b : Block MiniDbStmt) (p q : Option (Block Bytes))
    → count a (owned_with b p) + count a (pointer_block q)
      ≡ count a (owned_with b q) + count a (pointer_block p)
count-owned_with a b p q =
    let s = b.content in
    let parts = λ (p : Option (Block Bytes)).
      count-parts a (array_columns s) (array_values s) (pointer_block s.columns)
        (pointer_block s.insert_values) (pointer_block s.insert_is_int) (pointer_block p)
        (pointer_block s.kind_name_buf) (b.address ∷ []) in
    omega (arith, parts p, parts q)

no_block : (a : ℕ) → count a (pointer_block {A = Bytes} none) ≡ 0
unfolding count
no_block a = refl

error_read :
    (b : Block MiniDbStmt) (heap : Heap) (others : List ℕ) (msg : Bytes)
    → Owns b heap others
    → b.content.ast ≡ SqlStatement.invalid msg
    → Returns (minidb_stmt_error b.content heap) (λ r. Owns (record b { content = r.1 }) r.2 others)
unfolding minidb_stmt_error
error_read b heap others msg o e =
    rw (minidb_stmt_error, e)
      (Returns-bind (release_block b.content.error_buf heap.live) _
        (λ left. SameBlocks left (owned_with b none ++ others))
        (λ (r : Bytes × MiniDbStmt × Heap). Owns (record b { content = r.1 }) r.2 others)
        (Frees-release_block b.content.error_buf heap.live (owned_with b none ++ others) (λ a.
          let k : count a heap.live ≡ count a (owned_with b b.content.error_buf) + count a others =
            o.holds a in
          omega (
            arith,
            no_block a,
            count-append a (owned_with b none) others,
            count-owned_with a b none b.content.error_buf,
          )))
        (λ left h. record {
          whole = record { columns = o.whole.columns; values = o.whole.values };
          holds = λ a. holds a left (h a);
        }))
  where
    holds :
        (a : ℕ) (left : List ℕ)
        → count a left ≡ count a (owned_with b none ++ others)
        → count a (heap.next ∷ left)
          ≡ count a (owned_with b (some (record { address = heap.next; content = msg })))
            + count a others
    holds a left k = omega (
      arith,
      no_block a,
      count-append a (heap.next ∷ []) left,
      count-append a (owned_with b none) others,
      count-owned_with a b (some (record { address = heap.next; content = msg })) none,
    )

-- Reading the error keeps that.
minidb_stmt_error-Owns :
    (b : Block MiniDbStmt) (heap : Heap) (others : List ℕ)
    → Owns b heap others
    → Returns (minidb_stmt_error b.content heap) (λ r. Owns (record b { content = r.1 }) r.2 others)
unfolding minidb_stmt_error
minidb_stmt_error-Owns b heap others o =
    (elim b.content.ast
        as (λ ast.
          b.content.ast ≡ ast
          → Returns (minidb_stmt_error b.content heap)
              (λ r. Owns (record b { content = r.1 }) r.2 others)) [
                | SqlStatement.invalid msg ↦ λ e. error_read b heap others msg o e
                | _ ↦ λ e. rw (minidb_stmt_error, e) o
              ])
      refl

-- The error read a number of times.
abbrev pub read_errors : ℕ → Block MiniDbStmt → Heap → Option (Block MiniDbStmt × Heap)
read_errors zero b heap = some (b, heap)
read_errors (suc n) b heap =
    minidb_stmt_error b.content heap >>= λ r. read_errors n (record b { content = r.1 }) r.2

read_errors-Owns :
    (n : ℕ) (b : Block MiniDbStmt) (heap : Heap) (others : List ℕ)
    → Owns b heap others
    → Returns (read_errors n b heap) (λ r. Owns r.0 r.1 others)
read_errors-Owns zero b heap others o = o
read_errors-Owns (suc n) b heap others o =
    Returns-bind (minidb_stmt_error b.content heap) _ _ _ (minidb_stmt_error-Owns b heap others o)
      (λ r h. read_errors-Owns n (record b { content = r.1 }) r.2 others h)

-- A statement is parsed, its error is read a number of times, and it is freed: every block that this
-- allocates is released exactly once, none is released that is not allocated, and the blocks that were
-- allocated before stay, whatever the text is.
pub minidb_stmt_free-SameBlocks :
    (sql : Bytes) (heap : Heap) (n : ℕ)
    → Returns
        (minidb_parse sql heap >>= λ r.
          read_errors n r.0 r.1 >>= λ s. minidb_stmt_free s.0 s.1.live)
        (λ live. SameBlocks live heap.live)
minidb_stmt_free-SameBlocks sql heap n =
    Returns-bind (minidb_parse sql heap) _ _ _ (minidb_parse-Owns sql heap) (λ r h.
      Returns-bind (read_errors n r.0 r.1) _ _ _ (read_errors-Owns n r.0 r.1 heap.live h)
        (λ s o. Frees-minidb_stmt_free s.0 o.whole s.1.live heap.live o.holds))
