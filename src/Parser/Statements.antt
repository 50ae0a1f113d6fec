-- ===== src/Parser/Statements.antt =====
-- src/parser/parser.cpp: the statements, and `parse`.
pub mod Bounds
pub mod Shape
use cpp_db.Base.{
  ℕ, zero, suc, ◌+◌, Bool, true, false, ltb, List, [], ◌∷◌, Option, none, some, Bytes, codes,
  if◌then◌else◌, ◌||◌, ◌&&◌, not, count,
}
use cpp_db.Parser.Ast
use cpp_db.Parser.Ast.{ColumnDef, SqlStatement}
use cpp_db.Parser.Token.{TokenKind, Token, same_kind}
use cpp_db.Parser.Lexer.{tokenize}
use cpp_db.Parser.Cursor.{
  Parser, Outcome, done, refused, fault, ◌>>=◌, return, is_end, check, advance, take, skip,
  make_error,
}
use cpp_db.Parser.Clauses.{
  parse_value_string, parse_optional_where, parse_columns, parse_values, fueled,
}

-- The end of the statements that only have a name.
unfoldable pub parse_named : (Bytes → SqlStatement) → Token → Parser SqlStatement
unfolding skip
parse_named make name = do _ ← skip TokenKind.semicolon; return (make name.lexeme)

-- `parse_create` from the name of the table on.
unfoldable pub parse_create_table : Parser SqlStatement
unfolding take check skip make_error parse_columns
parse_create_table = do
  name ← take TokenKind.identifier "Expected table name after 'CREATE TABLE'"
  _ ← take TokenKind.lparen "Expected '(' after table name in CREATE TABLE"
  closed ← check TokenKind.rparen
  if closed then make_error "Expected at least one column definition in CREATE TABLE" else do
    columns ← fueled parse_columns
    if ltb 1 (count (λ (c : ColumnDef). c.is_primary) columns)
        then make_error "Only one primary key column is allowed per table"
        else do _ ← skip TokenKind.semicolon; return (SqlStatement.create_table name.lexeme columns)

unfoldable pub parse_create : Parser SqlStatement
unfolding advance check take make_error parse_named parse_create_table
parse_create = do
  _ ← advance
  database ← check TokenKind.kw_database
  table ← check TokenKind.kw_table
  if not database && not table
      then make_error "Expected 'DATABASE' or 'TABLE' after 'CREATE'"
      else do
        _ ← advance
        if database
            then (do
              name ← take TokenKind.identifier "Expected database name after 'CREATE DATABASE'"
              parse_named SqlStatement.create_database name)
            else parse_create_table

unfoldable pub parse_drop : Parser SqlStatement
unfolding advance check take make_error parse_named
parse_drop = do
  _ ← advance
  database ← check TokenKind.kw_database
  table ← check TokenKind.kw_table
  if not database && not table then make_error "Expected 'DATABASE' or 'TABLE' after 'DROP'" else do
    _ ← advance
    if database
        then (do
          name ← take TokenKind.identifier "Expected database name after 'DROP DATABASE'"
          parse_named SqlStatement.drop_database name)
        else do
          name ← take TokenKind.identifier "Expected table name after 'DROP TABLE'"
          parse_named SqlStatement.drop_table name

unfoldable pub parse_use : Parser SqlStatement
unfolding advance take parse_named
parse_use = do
  _ ← advance
  name ← take TokenKind.identifier "Expected database name after 'USE'"
  parse_named SqlStatement.use_database name

unfoldable pub parse_select : Parser SqlStatement
unfolding advance take check make_error parse_optional_where
parse_select = do
  _ ← advance
  named ← check TokenKind.identifier
  star ← check TokenKind.op_star
  column ←
      (if named || star then advance else make_error "Expected column name or '*' after SELECT")
  _ ← take TokenKind.kw_from "Expected 'FROM' after column in SELECT"
  table ← take TokenKind.identifier "Expected table name after 'FROM'"
  (has_where, w) ← parse_optional_where
  return (
      SqlStatement.select (record {
        column_name = column.lexeme;
        table_name = table.lexeme;
        has_where = has_where;
        where_clause = w;
      }))

unfoldable pub parse_delete : Parser SqlStatement
unfolding advance take parse_optional_where
parse_delete = do
  _ ← advance
  _ ← take TokenKind.kw_from "Expected 'FROM' after 'DELETE'"
  table ← take TokenKind.identifier "Expected table name after 'DELETE FROM'"
  (has_where, w) ← parse_optional_where
  return (
      SqlStatement.delete
        (record { table_name = table.lexeme; has_where = has_where; where_clause = w }))

unfoldable pub parse_insert : Parser SqlStatement
unfolding advance take check skip make_error parse_values
parse_insert = do
  _ ← advance
  _ ← take TokenKind.kw_into "Expected 'INTO' after 'INSERT'"
  table ← take TokenKind.identifier "Expected table name after 'INSERT INTO'"
  _ ← take TokenKind.kw_values "Expected 'VALUES' after table name in INSERT"
  _ ← take TokenKind.lparen "Expected '(' after 'VALUES'"
  closed ← check TokenKind.rparen
  if closed then make_error "Expected at least one value in INSERT VALUES" else do
    values ← fueled parse_values
    _ ← skip TokenKind.semicolon
    return (SqlStatement.insert (record { table_name = table.lexeme; values = values }))

unfoldable pub parse_update : Parser SqlStatement
unfolding advance take parse_value_string parse_optional_where
parse_update = do
  _ ← advance
  table ← take TokenKind.identifier "Expected table name after 'UPDATE'"
  _ ← take TokenKind.kw_set "Expected 'SET' after table name in UPDATE"
  column ← take TokenKind.identifier "Expected column name after 'SET'"
  _ ← take TokenKind.op_eq "Expected '=' after column name in SET clause"
  value ← parse_value_string
  (has_where, w) ← parse_optional_where
  return (
      SqlStatement.update (record {
        table_name = table.lexeme;
        set_column = column.lexeme;
        set_value = value.text;
        set_is_int = value.is_int;
        has_where = has_where;
        where_clause = w;
      }))

-- The branch of `parse_statement` for the kind of the first token.
abbrev pub parse_kind : TokenKind → Parser SqlStatement
parse_kind TokenKind.kw_create = parse_create
parse_kind TokenKind.kw_drop = parse_drop
parse_kind TokenKind.kw_use = parse_use
parse_kind TokenKind.kw_select = parse_select
parse_kind TokenKind.kw_delete = parse_delete
parse_kind TokenKind.kw_insert = parse_insert
parse_kind TokenKind.kw_update = parse_update
parse_kind _ = make_error "Unexpected token, expected a SQL statement keyword"

-- `parse_statement`
unfoldable pub parse_statement : Parser SqlStatement
unfolding same_kind make_error parse_create parse_drop parse_use parse_select parse_delete
    parse_insert parse_update
parse_statement [] = fault
parse_statement (t ∷ ts) =
    if is_end t
    then make_error "Empty input, expected an SQL statement" (t ∷ ts)
    else parse_kind t.kind (t ∷ ts)

-- `parse` on tokens: none for a read behind the last token.
unfoldable pub parse_tokens : List Token → Option SqlStatement
unfolding parse_statement
parse_tokens ts = elim (parse_statement ts) [
  | done stmt _ ↦ some stmt
  | refused msg ↦ some (SqlStatement.invalid msg)
  | fault ↦ none
]

-- `parse` on the text of a statement.
unfoldable pub parse : Bytes → Option SqlStatement
unfolding tokenize parse_tokens
parse sql = elim (tokenize sql) [
  | none ↦ none
  | some (tokens, l) ↦
      if l.has_error then some (SqlStatement.invalid l.error_msg) else parse_tokens tokens
]
