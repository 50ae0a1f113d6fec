-- ===== src/Parser/Clauses.antt =====
-- src/parser/parser.cpp: the parts of the statements.
pub mod Bounds
pub mod Shape
use cpp_db.Base.{
  ℕ, zero, suc, Bool, true, false, ◌||◌, List, [], ◌∷◌, codes, is_empty, length, if◌then◌else◌,
}
use cpp_db.Parser.Ast.{ColumnDef, WhereClause, Literal}
use cpp_db.Parser.Token.{TokenKind}
use cpp_db.Parser.Cursor.{Parser, refused, fault, ◌>>=◌, return, check, advance, skip, make_error}

-- `ColumnDef()` and `WhereClause()`, which the callers take for an error.
abbrev pub no_column : ColumnDef
no_column = record { name = []; type = []; is_primary = false }

abbrev pub no_where : WhereClause
no_where = record { column = []; op = []; const_value = []; is_int_literal = false }

-- `parse_value_string`, with `is_int`.
unfoldable pub parse_value_string : Parser Literal
unfolding check advance
parse_value_string = do
  int ← check TokenKind.int_literal
  if int then (do tok ← advance; return (record { text = tok.lexeme; is_int = true })) else do
    str ← check TokenKind.string_literal
    if str
        then (do tok ← advance; return (record { text = tok.lexeme; is_int = false }))
        else return (record { text = []; is_int = false })

-- `parse_column_def`
unfoldable pub parse_column_def : Parser ColumnDef
unfolding check advance skip
parse_column_def = do
  named ← check TokenKind.identifier
  if named
      then (do
        name ← advance
        int ← check TokenKind.kw_int
        str ← check TokenKind.kw_string
        if int || str
            then (do
              type ← advance
              primary ← skip TokenKind.kw_primary
              return (record { name = name.lexeme; type = type.lexeme; is_primary = primary }))
            else return no_column)
      else return no_column

-- `parse_where_clause`
unfoldable pub parse_where_clause : Parser WhereClause
unfolding check advance parse_value_string
parse_where_clause = do
  _ ← advance
  named ← check TokenKind.identifier
  if named
      then (do
        column ← advance
        eq ← check TokenKind.op_eq
        lt ← check TokenKind.op_lt
        gt ← check TokenKind.op_gt
        if eq || lt || gt
            then (do
              op ← advance
              value ← parse_value_string
              return (record {
                column = column.lexeme;
                op = op.lexeme;
                const_value = value.text;
                is_int_literal = value.is_int;
              }))
            else return no_where)
      else return no_where

-- `has_where` with `where`, as SELECT, DELETE and UPDATE end: the clause, if there is one, and then the
-- semicolon.
unfoldable pub parse_optional_where : Parser (Bool × WhereClause)
unfolding check skip parse_where_clause
parse_optional_where = do
  here ← check TokenKind.kw_where
  clause ←
      (if here
        then (do
          w ← parse_where_clause
          if is_empty w.column
              then (λ ts. refused (codes "Error parsing WHERE clause"))
              else return (true, w))
        else return (false, no_where))
  _ ← skip TokenKind.semicolon
  return clause

-- The loop over the column definitions of CREATE TABLE. Without fuel it faults.
unfoldable pub parse_columns : ℕ → Parser (List ColumnDef)
unfolding parse_column_def skip make_error
parse_columns zero ts = fault
parse_columns (suc fuel) ts =
    (do
      col ← parse_column_def
      if is_empty col.name then make_error "Expected column name in CREATE TABLE" else do
        closed ← skip TokenKind.rparen
        if closed then return (col ∷ []) else do
          comma ← skip TokenKind.comma
          if comma
              then (do cols ← parse_columns fuel; return (col ∷ cols))
              else make_error "Expected ',' or ')' in column list")
      ts

-- The loop over the values of INSERT. Without fuel it faults.
unfoldable pub parse_values : ℕ → Parser (List Literal)
unfolding parse_value_string skip make_error
parse_values zero ts = fault
parse_values (suc fuel) ts =
    (do
      value ← parse_value_string
      closed ← skip TokenKind.rparen
      if closed then return (value ∷ []) else do
        comma ← skip TokenKind.comma
        if comma
            then (do values ← parse_values fuel; return (value ∷ values))
            else make_error "Expected ',' or ')' in VALUES list")
      ts

-- The fuel of a loop: the number of the tokens that are left.
abbrev pub fueled : {A : Type 0} → (ℕ → Parser A) → Parser A
fueled p ts = p (length ts) ts
