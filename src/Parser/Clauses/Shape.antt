-- ===== src/Parser/Clauses/Shape.antt =====
-- src/parser/parser.cpp: what the clauses look like that the parser accepts.
use cpp_db.Base.{
  All, [], codes, false, inl, inr, is_empty, length, refl, suc, true, zero, ℕ, ◌∷◌, ◌≡◌, ◌≢◌, ◌⊎◌,
  Bool, List, Bytes,
}
use cpp_db.Parser.Ast.{ColumnDef, WhereClause, Literal}
use cpp_db.Parser.Cursor.{Parser, advance, return, skip, ◌>>=◌}
use cpp_db.Parser.Cursor.Makes.{
  IsKind, Makes, Makes-advance, Makes-bind, Makes-check, Makes-if, Makes-make_error, Makes-skip,
  Takes, Takes-advance, Takes-check,
}
use cpp_db.Parser.Lexer.Lexemes.{Lexed}
use cpp_db.Parser.Token.{Token, TokenKind}
use cpp_db.Parser.Clauses.{
  fueled, no_where, parse_column_def, parse_columns, parse_optional_where, parse_value_string,
  parse_values, parse_where_clause,
}

-- One of the three operators that the executor compares with.
abbrev pub IsOperator : Bytes → Type 0
IsOperator op = (op ≡ codes "=") ⊎ (op ≡ codes "<") ⊎ (op ≡ codes ">")

abbrev pub HasColumn : WhereClause → Type 0
HasColumn w = (w.column ≢ []) × IsOperator w.op

-- A clause, if there is one, has a column and an operator.
abbrev pub IsClause : Bool → WhereClause → Type 0
IsClause has_where w = has_where ≡ true → HasColumn w

abbrev pub AreColumns : List ColumnDef → Type 0
AreColumns cs = (cs ≢ []) × All (λ (c : ColumnDef). c.name ≢ []) cs

is_empty-false : (bs : Bytes) → is_empty bs ≡ false → bs ≢ []
is_empty-false [] h e = cc
is_empty-false (b ∷ bs) h e = cc

-- A parser of which nothing is asked.
abbrev pub Anything : {A : Type 0} → A → Type 0
Anything a = Unit

pub Makes-parse_value_string : Makes (Anything {A = Literal}) parse_value_string
unfolding parse_value_string
Makes-parse_value_string =
    Makes-check (Anything {A = Literal}) TokenKind.int_literal _
      (Takes-advance Anything (IsKind TokenKind.int_literal) _ (λ t e h ts l. (tt, l)))
      (Makes-check Anything TokenKind.string_literal _
        (Takes-advance Anything (IsKind TokenKind.string_literal) _ (λ t e h ts l. (tt, l)))
        (λ ts l. (tt, l)))

Makes-parse_column_def : Makes (Anything {A = ColumnDef}) parse_column_def
unfolding parse_column_def
Makes-parse_column_def =
    Makes-check Anything TokenKind.identifier _
      (Takes-advance Anything (IsKind TokenKind.identifier) _ (λ name e h.
        Makes-check Anything TokenKind.kw_int _
          (Takes-check Anything (IsKind TokenKind.kw_int) TokenKind.kw_string _
            (λ str ts k l. typed name ts l))
          (Makes-check Anything TokenKind.kw_string _ (λ ts k l. typed name ts l)
            (λ ts l. (tt, l)))))
      (λ ts l. (tt, l))
  where
    typed :
        (name : Token)
        → Makes {A = ColumnDef} Anything (
            advance >>= λ type. skip TokenKind.kw_primary >>= λ primary.
            return (record { name = name.lexeme; type = type.lexeme; is_primary = primary }))
    typed name =
        Makes-advance Anything _
          (λ t. Makes-skip Anything TokenKind.kw_primary _ (λ b ts l. (tt, l)))

-- A clause that is not the one for errors.
abbrev Found : WhereClause → Type 0
Found w = w.column ≢ [] → HasColumn w

Makes-parse_where_clause : Makes Found parse_where_clause
unfolding parse_where_clause
Makes-parse_where_clause = Makes-advance Found _ (λ t.
    Makes-check Found TokenKind.identifier _
      (Takes-advance Found (IsKind TokenKind.identifier) _ (λ column e h.
        Makes-check Found TokenKind.op_eq _
          (Takes-check Found (IsKind TokenKind.op_eq) TokenKind.op_lt _ (λ lt.
            Takes-check Found (IsKind TokenKind.op_eq) TokenKind.op_gt _
              (λ gt. compared column (IsKind TokenKind.op_eq) (λ op k x. inl (x.eq k)))))
          (Makes-check Found TokenKind.op_lt _
            (Takes-check Found (IsKind TokenKind.op_lt) TokenKind.op_gt _
              (λ gt. compared column (IsKind TokenKind.op_lt) (λ op k x. inr (inl (x.lt k)))))
            (Makes-check Found TokenKind.op_gt _
              (compared column (IsKind TokenKind.op_gt) (λ op k x. inr (inr (x.gt k))))
              (λ ts l. ((λ n. absurd (n refl)), l))))))
      (λ ts l. ((λ n. absurd (n refl)), l)))
  where
    compared :
        (column : Token) (K : Token → Type 0)
        → ((op : Token) → K op → Lexed op → IsOperator op.lexeme)
        → Takes {A = WhereClause} K Found (
            advance >>= λ op. parse_value_string >>= λ value. return (record {
              column = column.lexeme;
              op = op.lexeme;
              const_value = value.text;
              is_int_literal = value.is_int;
            }))
    compared column K sign = Takes-advance Found K _ (λ op k x.
        Makes-bind Anything Found _ (λ value _ ts l. ((λ n. (n, sign op k x)), l))
          parse_value_string Makes-parse_value_string)

pub Makes-parse_optional_where :
    Makes (λ (r : Bool × WhereClause). IsClause r.0 r.1) parse_optional_where
unfolding parse_optional_where
Makes-parse_optional_where =
    Makes-check P TokenKind.kw_where _
      (λ ts e l.
        Makes-bind P P _ last (parse_where_clause >>= _)
          (Makes-bind Found P _
            (λ w f.
              Makes-if P (is_empty w.column) _ _ (λ e ts l. tt)
                (λ e ts l. ((λ _. f (is_empty-false w.column e)), l)))
            parse_where_clause Makes-parse_where_clause)
          ts l)
      (last (false, no_where) (λ e. cc))
  where
    P : Bool × WhereClause → Type 0
    P r = IsClause r.0 r.1

    last :
        (clause : Bool × WhereClause)
        → P clause
        → Makes P (skip TokenKind.semicolon >>= λ _. return clause)
    last clause p = Makes-skip P TokenKind.semicolon _ (λ b ts l. (p, l))

pub Makes-parse_values : (n : ℕ) → Makes (λ (vs : List Literal). vs ≢ []) (parse_values n)
unfolding parse_values
Makes-parse_values zero ts l = tt
Makes-parse_values (suc n) ts l =
    Makes-bind Anything P _
      (λ value _. Makes-skip P TokenKind.rparen _ (λ closed.
        Makes-if P closed _ _ (λ _ ts l. ((λ e. cc), l))
          (λ _. Makes-skip P TokenKind.comma _ (λ comma.
            Makes-if P comma _ _
              (λ _.
                Makes-bind P P _ (λ vs h ts l. ((λ e. cc), l)) (parse_values n)
                  (Makes-parse_values n))
              (λ _. Makes-make_error P "Expected ',' or ')' in VALUES list")))))
      parse_value_string Makes-parse_value_string ts l
  where
    P : List Literal → Type 0
    P vs = vs ≢ []

pub Makes-parse_columns : (n : ℕ) → Makes AreColumns (parse_columns n)
unfolding parse_columns
Makes-parse_columns zero ts l = tt
Makes-parse_columns (suc n) ts l =
    Makes-bind Anything AreColumns _
      (λ col _.
        Makes-if AreColumns (is_empty col.name) _ _
          (λ _. Makes-make_error AreColumns "Expected column name in CREATE TABLE")
          (λ e. Makes-skip AreColumns TokenKind.rparen _ (λ closed.
            Makes-if AreColumns closed _ _
              (λ _ ts l. (((λ e. cc), (is_empty-false col.name e, tt)), l))
              (λ _. Makes-skip AreColumns TokenKind.comma _ (λ comma.
                Makes-if AreColumns comma _ _
                  (λ _.
                    Makes-bind AreColumns AreColumns _
                      (λ cs h ts l. (((λ e. cc), (is_empty-false col.name e, h.1)), l))
                      (parse_columns n) (Makes-parse_columns n))
                  (λ _. Makes-make_error AreColumns "Expected ',' or ')' in column list"))))))
      parse_column_def Makes-parse_column_def ts l

pub Makes-fueled :
    {A : Type 0} (P : A → Type 0) (p : ℕ → Parser A)
    → ((n : ℕ) → Makes P (p n))
    → Makes P (fueled p)
Makes-fueled P p k ts l = k (length ts) ts l
