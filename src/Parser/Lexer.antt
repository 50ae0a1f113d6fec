-- ===== src/Parser/Lexer.antt =====
-- src/parser/lexer.cpp: from the text of a statement to its tokens. The pointer `_src` with the offset
-- `_pos` is the list of the bytes that are left, without the NUL.
pub mod Scans
pub mod Tokens
pub mod Lexemes
use cpp_db.Base.{
  ℕ, zero, suc, ◌+◌, ◌-◌, ◌*◌, ◌^◌, Bool, true, false, ◌&&◌, ◌||◌, List, [], ◌∷◌, ◌++◌, Option,
  none, some, Bytes, codes, is_digit, leb, ltb, ◌==◌, if◌then◌else◌, length,
}
use cpp_db.Parser.Token.{TokenKind, Token}

-- The members that change while a text is read.
pub record Lexer : Type 0 where
  pub rest : Bytes
  pub line : ℕ
  pub col : ℕ
  pub has_error : Bool
  pub error_msg : Bytes

-- `++_pos; ++_col` before the text `cs`.
abbrev pub step : Lexer → Bytes → Lexer
step l cs = record l { rest = cs; col = l.col + 1 }

-- `skip_whitespace`, on the bytes that are left.
unfoldable pub skip_whitespace : Bytes → Lexer → Lexer
skip_whitespace [] l = l
skip_whitespace (c ∷ cs) l = elim (c == b' ' || c == 9 || c == 13) [
  | true ↦ skip_whitespace cs (step l cs)
  | false ↦ elim (c == 10) [
    | true ↦ skip_whitespace cs (record l { rest = cs; line = l.line + 1; col = 1 })
    | false ↦ l
  ]
]

-- The token that scans set up, and the invalid token of an error.
abbrev pub token_at : TokenKind → Bytes → ℕ → ℕ → Token
token_at kind lexeme line column = record {
  kind = kind;
  lexeme = lexeme;
  line = line;
  column = column;
  int_value = some 0;
}

abbrev pub lex_error : Bytes → ℕ → Lexer → Token × Lexer
lex_error msg column l =
    (token_at TokenKind.invalid [] l.line column, record l { has_error = true; error_msg = msg })

abbrev pub is_letter : ℕ → Bool
is_letter c = leb b'a' c && leb c b'z' || leb b'A' c && leb c b'Z' || c == b'_'

-- The loop of `scan_identifier_or_keyword`: the word and the lexer behind it.
unfoldable pub take_word : Bytes → Lexer → Bytes × Lexer
take_word [] l = ([], l)
take_word (c ∷ cs) l = elim (is_letter c || is_digit c) [
  | true ↦ let (word, l') = take_word cs (step l cs) in (c ∷ word, l')
  | false ↦ ([], l)
]

-- `char_eq_ci` and `str_eq_ci`
abbrev pub upper : ℕ → ℕ
upper c = if leb b'a' c && leb c b'z' then c - 32 else c

unfoldable pub str_eq_ci : Bytes → Bytes → Bool
str_eq_ci [] [] = true
str_eq_ci [] (y ∷ ys) = false
str_eq_ci (x ∷ xs) [] = false
str_eq_ci (x ∷ xs) (y ∷ ys) = (upper x == upper y) && str_eq_ci xs ys

-- `match_keyword`: the keywords in the order in which they are tried.
abbrev pub keywords : List (Bytes × TokenKind)
keywords =
    (codes "create", TokenKind.kw_create)
    ∷ (codes "database", TokenKind.kw_database)
    ∷ (codes "drop", TokenKind.kw_drop)
    ∷ (codes "use", TokenKind.kw_use)
    ∷ (codes "table", TokenKind.kw_table)
    ∷ (codes "select", TokenKind.kw_select)
    ∷ (codes "from", TokenKind.kw_from)
    ∷ (codes "where", TokenKind.kw_where)
    ∷ (codes "delete", TokenKind.kw_delete)
    ∷ (codes "insert", TokenKind.kw_insert)
    ∷ (codes "into", TokenKind.kw_into)
    ∷ (codes "values", TokenKind.kw_values)
    ∷ (codes "update", TokenKind.kw_update)
    ∷ (codes "set", TokenKind.kw_set)
    ∷ (codes "primary", TokenKind.kw_primary)
    ∷ (codes "int", TokenKind.kw_int)
    ∷ (codes "string", TokenKind.kw_string)
    ∷ []

unfoldable pub first_keyword : List (Bytes × TokenKind) → Bytes → TokenKind
unfolding str_eq_ci
first_keyword [] word = TokenKind.identifier
first_keyword (k ∷ ks) word =
    let later = first_keyword ks word in if str_eq_ci word k.0 then k.1 else later

unfoldable pub match_keyword : Bytes → TokenKind
unfolding first_keyword
match_keyword word = first_keyword keywords word

unfoldable pub scan_identifier_or_keyword : Lexer → Token × Lexer
unfolding take_word match_keyword
scan_identifier_or_keyword l =
    let (word, l') = take_word l.rest l in (token_at (match_keyword word) word l'.line l.col, l')

-- `value * 10 + digit`, none once it is larger than an int.
abbrev pub add_digit : Option ℕ → ℕ → Option ℕ
add_digit none d = none
add_digit (some n) d = if ltb (n * 10 + d) (2 ^ 31) then some (n * 10 + d) else none

-- The loop of `scan_number`: the digits, their value and the lexer behind them.
unfoldable pub take_digits : Bytes → Option ℕ → Lexer → Bytes × Option ℕ × Lexer
take_digits [] value l = ([], value, l)
take_digits (c ∷ cs) value l = elim (is_digit c) [
  | true ↦
      let (digits, v, l') = take_digits cs (add_digit value (c - b'0')) (step l cs) in
      (c ∷ digits, v, l')
  | false ↦ ([], value, l)
]

unfoldable pub scan_number : Lexer → Token × Lexer
unfolding take_digits
scan_number l =
    let (digits, value, l') = take_digits l.rest (some 0) l in
    (record (token_at TokenKind.int_literal digits l'.line l.col) { int_value = value }, l')

-- The loop of `scan_string`: the bytes before the next quote or the end.
unfoldable pub take_string : Bytes → Lexer → Bytes × Lexer
take_string [] l = ([], l)
take_string (c ∷ cs) l = elim (c == b'"') [
  | true ↦ ([], l)
  | false ↦ let (content, l') = take_string cs (step l cs) in (c ∷ content, l')
]

-- `scan_string`, from the text behind the opening quote.
unfoldable pub scan_string : Bytes → Lexer → Token × Lexer
unfolding take_string
scan_string cs l =
    let (content, l') = take_string cs (step l cs) in
    elim l'.rest [
      | [] ↦ lex_error (codes "Unterminated string literal") l.col l'
      | q ∷ qs ↦ (token_at TokenKind.string_literal content l'.line l.col, step l' qs)
    ]

-- The kind of a token of one byte.
abbrev pub single_kind : ℕ → Option TokenKind
single_kind c =
    if c == b'('
    then some TokenKind.lparen
    else if c == b')'
    then some TokenKind.rparen
    else if c == b','
    then some TokenKind.comma
    else if c == b';'
    then some TokenKind.semicolon
    else if c == b'='
    then some TokenKind.op_eq
    else if c == b'<'
    then some TokenKind.op_lt
    else if c == b'>'
    then some TokenKind.op_gt
    else if c == b'*'
    then some TokenKind.op_star
    else none

-- `scan_token` before the byte `c` and the text `cs`.
unfoldable pub scan_token : ℕ → Bytes → Lexer → Token × Lexer
unfolding scan_string scan_number scan_identifier_or_keyword
scan_token c cs l = elim (single_kind c) [
  | some kind ↦ (token_at kind (c ∷ []) l.line l.col, step l cs)
  | none ↦
      if c == b'"'
      then scan_string cs l
      else if is_digit c
      then scan_number l
      else if is_letter c
      then scan_identifier_or_keyword l
      else lex_error (codes "Unexpected character: '" ++ (c ∷ codes "'")) l.col l
]

-- The token behind the last one.
abbrev pub eof_at : Lexer → Token
eof_at l = token_at TokenKind.end_of_file [] l.line l.col

-- The loop of `tokenize` with the token behind it: the tokens and the lexer at the end. None is for a
-- loop that has used up its fuel.
unfoldable pub scan_tokens : ℕ → Lexer → Option (List Token × Lexer)
unfolding skip_whitespace scan_token
scan_tokens zero l = none
scan_tokens (suc fuel) l =
    let l1 = skip_whitespace l.rest l in
    elim l1.rest [
      | [] ↦ some (eof_at l1 ∷ [], l1)
      | c ∷ cs ↦
          let (tok, l2) = scan_token c cs l1 in
          elim l2.has_error [
            | true ↦ some (tok ∷ eof_at l2 ∷ [], l2)
            | false ↦ elim (scan_tokens fuel l2) [
              | none ↦ none
              | some (toks, l3) ↦ some (tok ∷ toks, l3)
            ]
          ]
    ]

abbrev pub start : Bytes → Lexer
start sql = record { rest = sql; line = 1; col = 1; has_error = false; error_msg = [] }

-- `tokenize`
unfoldable pub tokenize : Bytes → Option (List Token × Lexer)
unfolding scan_tokens
tokenize sql = scan_tokens (length sql + 1) (start sql)
