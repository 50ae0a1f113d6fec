-- ===== src/Execution/Where.antt =====
-- `parse_where_value` and `matches_where` of src/execution/executor.cpp.
pub mod Clauses
use cpp_db.Base.{
  ℕ, ◌<◌, ◌≡◌, Bool, true, false, List, [], Option, none, some, ℤ, pos, negsuc, ltb_ℤ, ◌==ℤ◌, Bytes,
  codes, str_eq, atoi, if◌then◌else◌, get_elem?, arith,
}
use cpp_db.Storage.Value.{Value, Row, compare}
use cpp_db.Parser.Ast.{WhereClause}

-- A literal as a value.
unfoldable pub literal_value : Bool → Bytes → Value
literal_value true text = Value.int (atoi text)
literal_value false text = Value.string text

-- `parse_where_value`
unfoldable pub parse_where_value : WhereClause → Value
unfolding literal_value
parse_where_value w = literal_value w.is_int_literal w.const_value

-- The operator of the clause on the result of a comparison.
unfoldable pub apply_op : Bytes → ℤ → Bool
unfolding str_eq
apply_op op cmp =
    if str_eq op (codes "=")
    then cmp ==ℤ pos 0
    else if str_eq op (codes "<")
    then ltb_ℤ cmp (pos 0)
    else if str_eq op (codes ">")
    then ltb_ℤ (pos 0) cmp
    else false

-- `matches_where`: false for a column outside the row.
unfoldable pub matches_where : Row → ℤ → WhereClause → Bool
unfolding parse_where_value apply_op
matches_where row (negsuc n) w = false
matches_where row (pos col) w = elim (get_elem? row col) [
  | none ↦ false
  | some cell ↦ apply_op w.op (compare cell (parse_where_value w))
]

-- The test of the loops: every row passes without a clause.
unfoldable pub passes : Bool → WhereClause → ℤ → Row → Bool
unfolding matches_where
passes false w col row = true
passes true w col row = matches_where row col w
