-- ===== src/Parser/Clauses/Bounds.antt =====
-- src/parser/parser.cpp: the parsers of the clauses read no token behind the last one, and the loops
-- over columns and values end.
use cpp_db.Base.{ℕ, zero, suc, Bool, false, [], ◌∷◌, arith, length, is_empty}
use cpp_db.Parser.Ast.{ColumnDef, WhereClause}
use cpp_db.Parser.Token.{TokenKind, Token}
use cpp_db.Parser.Cursor.{Parser, ◌>>=◌, return, advance, skip}
use cpp_db.Parser.Cursor.Bounds.{
  Guarded, Ahead, Guarded-bind, Ahead-bind, Ahead-advance, Guarded-make_error, Guarded-check,
  Ahead-check, Guarded-skip, Guarded-option, Guarded-if, Good-mono,
}
use cpp_db.Parser.Clauses.{
  parse_value_string, parse_column_def, parse_where_clause, parse_optional_where, parse_columns,
  parse_values, fueled, no_where,
}

pub Guarded-parse_value_string : (n : ℕ) → Guarded n parse_value_string
unfolding parse_value_string
Guarded-parse_value_string n =
    Guarded-check n TokenKind.int_literal _ (Ahead-bind n _ (λ t ts h. h) advance (Ahead-advance n))
      (Guarded-check n TokenKind.string_literal _
        (Ahead-bind n _ (λ t ts h. h) advance (Ahead-advance n)) (λ ts h. h))

Guarded-parse_column_def : (n : ℕ) → Guarded n parse_column_def
unfolding parse_column_def
Guarded-parse_column_def n =
    Guarded-check n TokenKind.identifier _
      (Ahead-bind n _
        (λ name.
          Guarded-check n TokenKind.kw_int _
            (Ahead-check n TokenKind.kw_string _ (λ str. typed name))
            (Guarded-check n TokenKind.kw_string _ (typed name) (λ ts h. h)))
        advance (Ahead-advance n))
      (λ ts h. h)
  where
    typed :
        (name : Token)
        → Ahead {A = ColumnDef} n (
            advance >>= λ type. skip TokenKind.kw_primary >>= λ primary.
            return (record { name = name.lexeme; type = type.lexeme; is_primary = primary }))
    typed name =
        Ahead-bind n _
          (λ t.
            Guarded-bind n _ (λ b ts h. h) (skip TokenKind.kw_primary)
              (Guarded-option n TokenKind.kw_primary))
          advance (Ahead-advance n)

Ahead-parse_where_clause : (n : ℕ) → Ahead n parse_where_clause
unfolding parse_where_clause
Ahead-parse_where_clause n =
    Ahead-bind n _
      (λ t.
        Guarded-check n TokenKind.identifier _
          (Ahead-bind n _
            (λ column.
              Guarded-check n TokenKind.op_eq _
                (Ahead-check n TokenKind.op_lt _
                  (λ lt. Ahead-check n TokenKind.op_gt _ (λ gt. compared column)))
                (Guarded-check n TokenKind.op_lt _
                  (Ahead-check n TokenKind.op_gt _ (λ gt. compared column))
                  (Guarded-check n TokenKind.op_gt _ (compared column) (λ ts h. h))))
            advance (Ahead-advance n))
          (λ ts h. h))
      advance (Ahead-advance n)
  where
    compared :
        (column : Token)
        → Ahead {A = WhereClause} n (
            advance >>= λ op. parse_value_string >>= λ value. return (record {
              column = column.lexeme;
              op = op.lexeme;
              const_value = value.text;
              is_int_literal = value.is_int;
            }))
    compared column =
        Ahead-bind n _
          (λ t. Guarded-bind n _ (λ b ts h. h) parse_value_string (Guarded-parse_value_string n))
          advance (Ahead-advance n)

pub Guarded-parse_optional_where : (n : ℕ) → Guarded n parse_optional_where
unfolding parse_optional_where
Guarded-parse_optional_where n =
    Guarded-check n TokenKind.kw_where _
      (Ahead-bind n _ last (parse_where_clause >>= _) (
        Ahead-bind n _ (λ w. Guarded-if n (is_empty w.column) _ _ (λ ts h. tt) (λ ts h. h))
          parse_where_clause (Ahead-parse_where_clause n)))
      (last (false, no_where))
  where
    last :
        (clause : Bool × WhereClause) → Guarded n (skip TokenKind.semicolon >>= λ _. return clause)
    last clause =
        Guarded-bind n _ (λ b ts h. h) (skip TokenKind.semicolon)
          (Guarded-option n TokenKind.semicolon)

pub Guarded-parse_values : (n : ℕ) → Guarded n (parse_values n)
unfolding parse_values
Guarded-parse_values zero [] (e, l) = absurd e
Guarded-parse_values zero (t ∷ ts) (e, l) = absurd (omega arith)
Guarded-parse_values (suc n) ts h =
    Guarded-bind (suc n) _
      (λ value.
        Guarded-bind (suc n) _
          (λ closed.
            Guarded-if (suc n) closed _ _ (λ ts h. h)
              (Guarded-skip n TokenKind.comma _
                (Guarded-bind n _ (λ vs ts h. h) (parse_values n) (Guarded-parse_values n))
                (Guarded-make_error _ (suc n) "Expected ',' or ')' in VALUES list")))
          (skip TokenKind.rparen) (Guarded-option (suc n) TokenKind.rparen))
      parse_value_string (Guarded-parse_value_string (suc n)) ts h

pub Guarded-parse_columns : (n : ℕ) → Guarded n (parse_columns n)
unfolding parse_columns
Guarded-parse_columns zero [] (e, l) = absurd e
Guarded-parse_columns zero (t ∷ ts) (e, l) = absurd (omega arith)
Guarded-parse_columns (suc n) ts h =
    Guarded-bind (suc n) _
      (λ col.
        Guarded-if (suc n) (is_empty col.name) _ _
          (Guarded-make_error _ (suc n) "Expected column name in CREATE TABLE")
          (Guarded-bind (suc n) _
            (λ closed.
              Guarded-if (suc n) closed _ _ (λ ts h. h)
                (Guarded-skip n TokenKind.comma _
                  (Guarded-bind n _ (λ cols ts h. h) (parse_columns n) (Guarded-parse_columns n))
                  (Guarded-make_error _ (suc n) "Expected ',' or ')' in column list")))
            (skip TokenKind.rparen) (Guarded-option (suc n) TokenKind.rparen)))
      parse_column_def (Guarded-parse_column_def (suc n)) ts h

pub Guarded-fueled :
    {A : Type 0} (p : ℕ → Parser A) → ((n : ℕ) → Guarded n (p n)) → (n : ℕ) → Guarded n (fueled p)
Guarded-fueled p k n ts (e, l) =
    Good-mono (length ts) n (p (length ts) ts) l (k (length ts) ts (e, omega arith))
