-- ===== src/Parser/Statements/Bounds.antt =====
-- src/parser/parser.cpp: `parse` never reads behind the last token, and its loops come to an end.
use cpp_db.Base.{
  ℕ, ◌≡◌, refl, Bool, List, [], ◌∷◌, none, some, arith, length, Bool-cases, if◌then◌else◌, ◌||◌,
  ltb, count, Returns, Bytes, String, inl, inr,
}
use cpp_db.Parser.Ast.{ColumnDef, SqlStatement, WhereClause}
use cpp_db.Parser.Token.{TokenKind, Token}
use cpp_db.Parser.Lexer.{tokenize}
use cpp_db.Parser.Lexer.Tokens.{Closed, Tokens, tokenize-Tokens}
use cpp_db.Parser.Cursor.{
  Parser, Outcome, done, refused, fault, is_end, ◌>>=◌, check, advance, take, skip, make_error,
}
use cpp_db.Parser.Cursor.Bounds.{
  Ended, Good, Guarded, Ahead, Guarded-bind, Ahead-bind, Ahead-advance, Guarded-make_error,
  Ahead-make_error, Guarded-check, Ahead-check, Guarded-take, Guarded-option, Guarded-if,
}
use cpp_db.Parser.Clauses.{
  parse_value_string, parse_optional_where, parse_columns, parse_values, fueled,
}
use cpp_db.Parser.Statements.{
  parse_named, parse_create_table, parse_create, parse_drop, parse_use, parse_select, parse_delete,
  parse_insert, parse_update, parse_kind, parse_statement, parse_tokens, parse,
}
use cpp_db.Parser.Clauses.Bounds.{
  Guarded-parse_value_string, Guarded-parse_optional_where, Guarded-parse_values,
  Guarded-parse_columns, Guarded-fueled,
}

module _ (n : ℕ) where
  Guarded-parse_named :
      (make : Bytes → SqlStatement) (name : Token) → Guarded n (parse_named make name)
  unfolding parse_named
  Guarded-parse_named make name =
      Guarded-bind n _ (λ b ts h. h) (skip TokenKind.semicolon)
        (Guarded-option n TokenKind.semicolon)

  taken :
      {B : Type 0} (kind : TokenKind) (msg : String) (f : Token → Parser B)
      → ((t : Token) → Guarded n (f t))
      → Guarded n (take kind msg >>= f)
  taken kind msg f k = Guarded-bind n f k (take kind msg) (Guarded-take n kind msg)

  stepped :
      {B : Type 0} (f : Token → Parser B)
      → ((t : Token) → Guarded n (f t))
      → Ahead n (advance >>= f)
  stepped f k = Ahead-bind n f k advance (Ahead-advance n)

  Guarded-parse_create_table : Guarded n parse_create_table
  unfolding parse_create_table
  Guarded-parse_create_table =
      taken TokenKind.identifier "Expected table name after 'CREATE TABLE'" _ (λ name.
        taken TokenKind.lparen "Expected '(' after table name in CREATE TABLE" _ (λ _.
          Guarded-check n TokenKind.rparen _
            (Ahead-make_error SqlStatement n
              "Expected at least one column definition in CREATE TABLE")
            (Guarded-bind n _
              (λ columns.
                Guarded-if n (ltb 1 (count (λ (c : ColumnDef). c.is_primary) columns)) _ _
                  (Guarded-make_error SqlStatement n
                    "Only one primary key column is allowed per table")
                  (Guarded-bind n _ (λ b ts h. h) (skip TokenKind.semicolon)
                    (Guarded-option n TokenKind.semicolon)))
              (fueled parse_columns) (Guarded-fueled parse_columns Guarded-parse_columns n))))

  Ahead-parse_create : Ahead n parse_create
  unfolding parse_create
  Ahead-parse_create = stepped _ (λ _.
      Guarded-check n TokenKind.kw_database _
        (Ahead-check n TokenKind.kw_table _ (λ table. stepped _ (λ _.
          taken TokenKind.identifier "Expected database name after 'CREATE DATABASE'" _
            (Guarded-parse_named SqlStatement.create_database))))
        (Guarded-check n TokenKind.kw_table _ (stepped _ (λ _. Guarded-parse_create_table))
          (Guarded-make_error SqlStatement n "Expected 'DATABASE' or 'TABLE' after 'CREATE'")))

  Ahead-parse_drop : Ahead n parse_drop
  unfolding parse_drop
  Ahead-parse_drop = stepped _ (λ _.
      Guarded-check n TokenKind.kw_database _
        (Ahead-check n TokenKind.kw_table _ (λ table. stepped _ (λ _.
          taken TokenKind.identifier "Expected database name after 'DROP DATABASE'" _
            (Guarded-parse_named SqlStatement.drop_database))))
        (Guarded-check n TokenKind.kw_table _
          (stepped _ (λ _.
            taken TokenKind.identifier "Expected table name after 'DROP TABLE'" _
              (Guarded-parse_named SqlStatement.drop_table)))
          (Guarded-make_error SqlStatement n "Expected 'DATABASE' or 'TABLE' after 'DROP'")))

  Ahead-parse_use : Ahead n parse_use
  unfolding parse_use
  Ahead-parse_use = stepped _ (λ _.
      taken TokenKind.identifier "Expected database name after 'USE'" _
        (Guarded-parse_named SqlStatement.use_database))

  clause :
      {B : Type 0} (f : Bool × WhereClause → Parser B)
      → ((w : Bool × WhereClause) → Guarded n (f w))
      → Guarded n (parse_optional_where >>= f)
  clause f k = Guarded-bind n f k parse_optional_where (Guarded-parse_optional_where n)

  Ahead-parse_delete : Ahead n parse_delete
  unfolding parse_delete
  Ahead-parse_delete = stepped _ (λ _.
      taken TokenKind.kw_from "Expected 'FROM' after 'DELETE'" _ (λ _.
        taken TokenKind.identifier "Expected table name after 'DELETE FROM'" _
          (λ table. clause _ (λ w ts h. h))))

  chosen :
      {B : Type 0} (msg : String) (f : Token → Parser B)
      → ((t : Token) → Guarded n (f t))
      → Guarded n (
          check TokenKind.identifier >>= λ named. check TokenKind.op_star >>= λ star.
          (if named || star then advance else make_error msg) >>= f)
  chosen msg f k =
      Guarded-check n TokenKind.identifier _
        (Ahead-check n TokenKind.op_star _ (λ star. stepped f k))
        (Guarded-check n TokenKind.op_star _ (stepped f k)
          (Guarded-bind n f k (make_error msg) (Guarded-make_error _ n msg)))

  Ahead-parse_select : Ahead n parse_select
  unfolding parse_select
  Ahead-parse_select = stepped _ (λ _.
      chosen "Expected column name or '*' after SELECT" _ (λ column.
        taken TokenKind.kw_from "Expected 'FROM' after column in SELECT" _ (λ _.
          taken TokenKind.identifier "Expected table name after 'FROM'" _
            (λ table. clause _ (λ w ts h. h)))))

  Ahead-parse_insert : Ahead n parse_insert
  unfolding parse_insert
  Ahead-parse_insert = stepped _ (λ _.
      taken TokenKind.kw_into "Expected 'INTO' after 'INSERT'" _ (λ _.
        taken TokenKind.identifier "Expected table name after 'INSERT INTO'" _ (λ table.
          taken TokenKind.kw_values "Expected 'VALUES' after table name in INSERT" _ (λ _.
            taken TokenKind.lparen "Expected '(' after 'VALUES'" _ (λ _.
              Guarded-check n TokenKind.rparen _
                (Ahead-make_error SqlStatement n "Expected at least one value in INSERT VALUES")
                (Guarded-bind n _
                  (λ values.
                    Guarded-bind n _ (λ b ts h. h) (skip TokenKind.semicolon)
                      (Guarded-option n TokenKind.semicolon))
                  (fueled parse_values) (Guarded-fueled parse_values Guarded-parse_values n)))))))

  Ahead-parse_update : Ahead n parse_update
  unfolding parse_update
  Ahead-parse_update = stepped _ (λ _.
      taken TokenKind.identifier "Expected table name after 'UPDATE'" _ (λ table.
        taken TokenKind.kw_set "Expected 'SET' after table name in UPDATE" _ (λ _.
          taken TokenKind.identifier "Expected column name after 'SET'" _ (λ column.
            taken TokenKind.op_eq "Expected '=' after column name in SET clause" _ (λ _.
              Guarded-bind n _ (λ value. clause _ (λ w ts h. h)) parse_value_string
                (Guarded-parse_value_string n))))))

  Ahead-parse_kind : (kind : TokenKind) → Ahead n (parse_kind kind)
  Ahead-parse_kind TokenKind.kw_create = Ahead-parse_create
  Ahead-parse_kind TokenKind.kw_drop = Ahead-parse_drop
  Ahead-parse_kind TokenKind.kw_use = Ahead-parse_use
  Ahead-parse_kind TokenKind.kw_select = Ahead-parse_select
  Ahead-parse_kind TokenKind.kw_delete = Ahead-parse_delete
  Ahead-parse_kind TokenKind.kw_insert = Ahead-parse_insert
  Ahead-parse_kind TokenKind.kw_update = Ahead-parse_update
  Ahead-parse_kind _ = Ahead-make_error _ n "Unexpected token, expected a SQL statement keyword"

  Guarded-parse_statement : Guarded n parse_statement
  unfolding parse_statement
  Guarded-parse_statement [] (e, l) = absurd e
  Guarded-parse_statement (t ∷ ts) (e, l) = elim (Bool-cases (is_end t)) [
    | inl q ↦
        rw (parse_statement, q)
          (Guarded-make_error SqlStatement n "Empty input, expected an SQL statement" (t ∷ ts)
            (e, l))
    | inr q ↦
        rw (parse_statement, q)
          (Ahead-parse_kind t.kind (t ∷ ts) (elim e [ inl r ↦ cc | inr r ↦ r ], omega arith))
  ]

finished :
    (n : ℕ) (r : Outcome SqlStatement) (ts : List Token)
    → parse_statement ts ≡ r
    → Good n r
    → (stmt : SqlStatement) × (parse_tokens ts ≡ some stmt)
unfolding parse_tokens
finished n (done stmt us) ts e h = (stmt, rw (parse_tokens, e))
finished n (refused msg) ts e h = (SqlStatement.invalid msg, rw (parse_tokens, e))
finished n fault ts e h = absurd h

-- On tokens with an END_OF_FILE among them, `parse` reads no token behind the last one, and both of its
-- loops end.
pub parse_tokens-Returns :
    (ts : List Token) → Ended ts → (stmt : SqlStatement) × (parse_tokens ts ≡ some stmt)
parse_tokens-Returns ts e =
    finished (length ts) (parse_statement ts) ts refl
      (Guarded-parse_statement (length ts) ts (e, omega arith))

Closed-Ended : (ts : List Token) → Closed ts → Ended ts
Closed-Ended [] c = c
Closed-Ended (t ∷ []) c = inl c
Closed-Ended (t ∷ u ∷ ts) c = inr (Closed-Ended (u ∷ ts) c.1)

-- `parse` gives a statement for every text: the loops of the lexer and of the parser end, and no token
-- behind the last one is read.
pub parse-Returns : (sql : Bytes) → (stmt : SqlStatement) × (parse sql ≡ some stmt)
unfolding parse
parse-Returns sql =
    (elim (tokenize sql)
        as (λ o.
          tokenize sql ≡ o → Returns o Tokens → (stmt : SqlStatement) × (parse sql ≡ some stmt)) [
            | none ↦ λ e h. absurd h
            | some (ts, l) ↦ λ e h. elim (Bool-cases l.has_error) [
              | inl g ↦ (SqlStatement.invalid l.error_msg, rw (parse, e, g))
              | inr g ↦
                  let (stmt, p) = parse_tokens-Returns ts (Closed-Ended ts h.closed) in
                  (stmt, rw (parse, e, g) p)
            ]
          ])
      refl (tokenize-Tokens sql)
