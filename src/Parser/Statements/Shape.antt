-- ===== src/Parser/Statements/Shape.antt =====
-- src/parser/parser.cpp: what the statements look like that the parser gives.
use cpp_db.Base.{
  OnResult-Returns, All, Bool-cases, OnResult, String, [], arith, if◌then◌else◌, inl, inr, ltb,
  none, refl, some, ◌<◌, ◌||◌, ◌∷◌, ◌≡◌, ◌≢◌, Bool, List, Bytes, Returns, count,
}
use cpp_db.Parser.Ast.{ColumnDef, WhereClause, SqlStatement}
use cpp_db.Parser.Cursor.{
  Parser, advance, check, is_end, make_error, refused, ◌>>=◌, take, done, fault,
}
use cpp_db.Parser.Clauses.Shape.{
  AreColumns, IsClause, Makes-fueled, Makes-parse_columns, Makes-parse_optional_where,
  Makes-parse_value_string, Makes-parse_values,
}
use cpp_db.Parser.Cursor.Makes.{
  IsKind, Made, Makes, Makes-advance, Makes-bind, Makes-check, Makes-if, Makes-make_error,
  Makes-skip, Makes-take, Takes-advance, Takes-check,
}
use cpp_db.Parser.Lexer.Lexemes.{Lexed, tokenize-Lexed}
use cpp_db.Parser.Token.{Token, TokenKind}
use cpp_db.Parser.Clauses.{
  fueled, parse_columns, parse_optional_where, parse_value_string, parse_values,
}
use cpp_db.Parser.Statements.{
  parse, parse_create, parse_create_table, parse_delete, parse_drop, parse_insert, parse_kind,
  parse_named, parse_select, parse_statement, parse_tokens, parse_update, parse_use,
}
use cpp_db.Parser.Lexer.{tokenize}
use cpp_db.Parser.Statements.Bounds.{parse-Returns}

-- A statement names what it is about, has the columns and values that it needs, at most one primary
-- key, and a column and an operator in its WHERE clause.
abbrev pub IsFormed : SqlStatement → Type 0
IsFormed (SqlStatement.create_database name) = name ≢ []
IsFormed (SqlStatement.drop_database name) = name ≢ []
IsFormed (SqlStatement.use_database name) = name ≢ []
IsFormed (SqlStatement.create_table name columns) =
    (name ≢ []) × AreColumns columns × (count (λ (c : ColumnDef). c.is_primary) columns < 2)
IsFormed (SqlStatement.drop_table name) = name ≢ []
IsFormed (SqlStatement.select s) =
    (s.table_name ≢ []) × (s.column_name ≢ []) × IsClause s.has_where s.where_clause
IsFormed (SqlStatement.delete s) = (s.table_name ≢ []) × IsClause s.has_where s.where_clause
IsFormed (SqlStatement.insert s) = (s.table_name ≢ []) × (s.values ≢ [])
IsFormed (SqlStatement.update s) =
    (s.table_name ≢ []) × (s.set_column ≢ []) × IsClause s.has_where s.where_clause
IsFormed (SqlStatement.invalid msg) = Unit

identified :
    {B : Type 0} (P : B → Type 0) (msg : String) (f : Token → Parser B)
    → ((t : Token) → t.lexeme ≢ [] → Makes P (f t))
    → Makes P (take TokenKind.identifier msg >>= f)
identified P msg f k = Makes-take P TokenKind.identifier msg f (λ t e h. k t (h.named e))

named :
    (make : Bytes → SqlStatement)
    → ((n : Bytes) → n ≢ [] → IsFormed (make n))
    → (name : Token) → name.lexeme ≢ []
    → Makes IsFormed (parse_named make name)
unfolding parse_named
named make k name n = Makes-skip IsFormed TokenKind.semicolon _ (λ b ts l. (k name.lexeme n, l))

Makes-parse_create_table : Makes IsFormed parse_create_table
unfolding parse_create_table
Makes-parse_create_table =
    identified IsFormed "Expected table name after 'CREATE TABLE'" _ (λ name n.
      Makes-take IsFormed TokenKind.lparen "Expected '(' after table name in CREATE TABLE" _
        (λ t e h.
          Makes-check IsFormed TokenKind.rparen _
            (λ ts k l.
              Makes-make_error IsFormed "Expected at least one column definition in CREATE TABLE" ts
                l)
            (Makes-bind AreColumns IsFormed _
              (λ columns c.
                Makes-if IsFormed (ltb 1 (count (λ (c : ColumnDef). c.is_primary) columns)) _ _
                  (λ _.
                    Makes-make_error IsFormed "Only one primary key column is allowed per table")
                  (λ few.
                    Makes-skip IsFormed TokenKind.semicolon _
                      (λ b ts l. ((n, c, ground arith), l))))
              (fueled parse_columns) (Makes-fueled AreColumns parse_columns Makes-parse_columns))))

Makes-parse_create : Makes IsFormed parse_create
unfolding parse_create
Makes-parse_create = Makes-advance IsFormed _ (λ _.
    Makes-check IsFormed TokenKind.kw_database _
      (Takes-check IsFormed (IsKind TokenKind.kw_database) TokenKind.kw_table _ (λ table ts k l.
        Makes-advance IsFormed _
          (λ _.
            identified IsFormed "Expected database name after 'CREATE DATABASE'" _
              (named SqlStatement.create_database (λ n h. h)))
          ts l))
      (Makes-check IsFormed TokenKind.kw_table _
        (λ ts k l. Makes-advance IsFormed _ (λ _. Makes-parse_create_table) ts l)
        (Makes-make_error IsFormed "Expected 'DATABASE' or 'TABLE' after 'CREATE'")))

Makes-parse_drop : Makes IsFormed parse_drop
unfolding parse_drop
Makes-parse_drop = Makes-advance IsFormed _ (λ _.
    Makes-check IsFormed TokenKind.kw_database _
      (Takes-check IsFormed (IsKind TokenKind.kw_database) TokenKind.kw_table _ (λ table ts k l.
        Makes-advance IsFormed _
          (λ _.
            identified IsFormed "Expected database name after 'DROP DATABASE'" _
              (named SqlStatement.drop_database (λ n h. h)))
          ts l))
      (Makes-check IsFormed TokenKind.kw_table _
        (λ ts k l.
          Makes-advance IsFormed _
            (λ _.
              identified IsFormed "Expected table name after 'DROP TABLE'" _
                (named SqlStatement.drop_table (λ n h. h)))
            ts l)
        (Makes-make_error IsFormed "Expected 'DATABASE' or 'TABLE' after 'DROP'")))

Makes-parse_use : Makes IsFormed parse_use
unfolding parse_use
Makes-parse_use = Makes-advance IsFormed _ (λ _.
    identified IsFormed "Expected database name after 'USE'" _
      (named SqlStatement.use_database (λ n h. h)))

clause :
    (f : Bool × WhereClause → Parser SqlStatement)
    → ((w : Bool × WhereClause) → IsClause w.0 w.1 → Makes IsFormed (f w))
    → Makes IsFormed (parse_optional_where >>= f)
clause f k = Makes-bind _ IsFormed f k parse_optional_where Makes-parse_optional_where

Makes-parse_delete : Makes IsFormed parse_delete
unfolding parse_delete
Makes-parse_delete = Makes-advance IsFormed _ (λ _.
    Makes-take IsFormed TokenKind.kw_from "Expected 'FROM' after 'DELETE'" _ (λ _ _ _.
      identified IsFormed "Expected table name after 'DELETE FROM'" _
        (λ table n. clause _ (λ w c ts l. ((n, c), l)))))

chosen :
    (msg : String) (f : Token → Parser SqlStatement)
    → ((t : Token) → t.lexeme ≢ [] → Makes IsFormed (f t))
    → Makes IsFormed (
        check TokenKind.identifier >>= λ named. check TokenKind.op_star >>= λ star.
        (if named || star then advance else make_error msg) >>= f)
chosen msg f k =
    Makes-check IsFormed TokenKind.identifier _
      (Takes-check IsFormed (IsKind TokenKind.identifier) TokenKind.op_star _
        (λ star. Takes-advance IsFormed (IsKind TokenKind.identifier) _ (λ t e h. k t (h.named e))))
      (Makes-check IsFormed TokenKind.op_star _
        (Takes-advance IsFormed (IsKind TokenKind.op_star) _
          (λ t e h. k t (λ g. let s = h.star e in cc)))
        (Makes-bind (λ t. ⊥) IsFormed f (λ t p. absurd p) (make_error msg)
          (Makes-make_error (λ t. ⊥) msg)))

Makes-parse_select : Makes IsFormed parse_select
unfolding parse_select
Makes-parse_select = Makes-advance IsFormed _ (λ _.
    chosen "Expected column name or '*' after SELECT" _ (λ column c.
      Makes-take IsFormed TokenKind.kw_from "Expected 'FROM' after column in SELECT" _ (λ _ _ _.
        identified IsFormed "Expected table name after 'FROM'" _
          (λ table n. clause _ (λ w h ts l. ((n, c, h), l))))))

Makes-parse_insert : Makes IsFormed parse_insert
unfolding parse_insert
Makes-parse_insert = Makes-advance IsFormed _ (λ _.
    Makes-take IsFormed TokenKind.kw_into "Expected 'INTO' after 'INSERT'" _ (λ _ _ _.
      identified IsFormed "Expected table name after 'INSERT INTO'" _ (λ table n.
        Makes-take IsFormed TokenKind.kw_values "Expected 'VALUES' after table name in INSERT" _
          (λ _ _ _. Makes-take IsFormed TokenKind.lparen "Expected '(' after 'VALUES'" _ (λ _ _ _.
            Makes-check IsFormed TokenKind.rparen _
              (λ ts k l.
                Makes-make_error IsFormed "Expected at least one value in INSERT VALUES" ts l)
              (Makes-bind _ IsFormed _
                (λ values v. Makes-skip IsFormed TokenKind.semicolon _ (λ b ts l. ((n, v), l)))
                (fueled parse_values) (Makes-fueled _ parse_values Makes-parse_values)))))))

Makes-parse_update : Makes IsFormed parse_update
unfolding parse_update
Makes-parse_update = Makes-advance IsFormed _ (λ _.
    identified IsFormed "Expected table name after 'UPDATE'" _ (λ table n.
      Makes-take IsFormed TokenKind.kw_set "Expected 'SET' after table name in UPDATE" _ (λ _ _ _.
        identified IsFormed "Expected column name after 'SET'" _ (λ column c.
          Makes-take IsFormed TokenKind.op_eq "Expected '=' after column name in SET clause" _
            (λ _ _ _.
              Makes-bind _ IsFormed _ (λ value _. clause _ (λ w h ts l. ((n, c, h), l)))
                parse_value_string Makes-parse_value_string)))))

Makes-parse_kind : (kind : TokenKind) → Makes IsFormed (parse_kind kind)
Makes-parse_kind TokenKind.kw_create = Makes-parse_create
Makes-parse_kind TokenKind.kw_drop = Makes-parse_drop
Makes-parse_kind TokenKind.kw_use = Makes-parse_use
Makes-parse_kind TokenKind.kw_select = Makes-parse_select
Makes-parse_kind TokenKind.kw_delete = Makes-parse_delete
Makes-parse_kind TokenKind.kw_insert = Makes-parse_insert
Makes-parse_kind TokenKind.kw_update = Makes-parse_update
Makes-parse_kind _ = Makes-make_error IsFormed "Unexpected token, expected a SQL statement keyword"

Makes-parse_statement : Makes IsFormed parse_statement
unfolding parse_statement
Makes-parse_statement [] l = tt
Makes-parse_statement (t ∷ ts) l = elim (Bool-cases (is_end t)) [
  | inl q ↦
      rw (parse_statement, q)
        (Makes-make_error IsFormed "Empty input, expected an SQL statement" (t ∷ ts) l)
  | inr q ↦ rw (parse_statement, q) (Makes-parse_kind t.kind (t ∷ ts) l)
]

parse_tokens-IsFormed : (ts : List Token) → All Lexed ts → OnResult (parse_tokens ts) IsFormed
unfolding parse_tokens
parse_tokens-IsFormed ts l =
    (elim (parse_statement ts)
        as (λ r. parse_statement ts ≡ r → Made IsFormed r → OnResult (parse_tokens ts) IsFormed) [
          | done stmt us ↦ λ e h. rw (parse_tokens, e) h.0
          | refused msg ↦ λ e h. rw (parse_tokens, e) tt
          | fault ↦ λ e h. rw (parse_tokens, e) tt
        ])
      refl (Makes-parse_statement ts l)

parse-OnResult : (sql : Bytes) → OnResult (parse sql) IsFormed
unfolding parse
parse-OnResult sql =
    (elim (tokenize sql)
        as (λ o.
          tokenize sql ≡ o → Returns o (λ r. All Lexed r.0) → OnResult (parse sql) IsFormed) [
            | none ↦ λ e h. absurd h
            | some (ts, k) ↦ λ e h. elim (Bool-cases k.has_error) [
              | inl g ↦ rw (parse, e, g) tt
              | inr g ↦ rw (parse, e, g) (parse_tokens-IsFormed ts h)
            ]
          ])
      refl (tokenize-Lexed sql)

-- `parse` gives a statement for every text, and a well-formed one: with the names that it needs, at
-- least one column or value where there is a list, at most one primary key, and in a WHERE clause a
-- column and one of the operators `=`, `<` and `>`.
pub parse-IsFormed : (sql : Bytes) → Returns (parse sql) IsFormed
parse-IsFormed sql =
    let (stmt, e) = parse-Returns sql in
    OnResult-Returns (parse sql) (λ s. Unit) IsFormed (rw e tt) (parse-OnResult sql)
