-- ===== src/Parser/Token.antt =====
-- src/parser/token.hpp and token.cpp: the kinds of tokens, with their names, and the tokens.
use cpp_db.Base.{ℕ, Bool, Bytes, codes, Option, ◌==◌}

-- `TokenKind`
pub data TokenKind : Type 0 where
  kw_create kw_database kw_drop kw_use kw_table kw_select kw_from kw_where kw_delete : TokenKind
  kw_insert kw_into kw_values kw_update kw_set kw_primary kw_int kw_string : TokenKind
  identifier int_literal string_literal : TokenKind
  op_eq op_lt op_gt op_star lparen rparen comma semicolon : TokenKind
  end_of_file invalid : TokenKind

-- The number of an enumerator.
unfoldable pub kind_number : TokenKind → ℕ
kind_number kw_create = 0
kind_number kw_database = 1
kind_number kw_drop = 2
kind_number kw_use = 3
kind_number kw_table = 4
kind_number kw_select = 5
kind_number kw_from = 6
kind_number kw_where = 7
kind_number kw_delete = 8
kind_number kw_insert = 9
kind_number kw_into = 10
kind_number kw_values = 11
kind_number kw_update = 12
kind_number kw_set = 13
kind_number kw_primary = 14
kind_number kw_int = 15
kind_number kw_string = 16
kind_number identifier = 17
kind_number int_literal = 18
kind_number string_literal = 19
kind_number op_eq = 20
kind_number op_lt = 21
kind_number op_gt = 22
kind_number op_star = 23
kind_number lparen = 24
kind_number rparen = 25
kind_number comma = 26
kind_number semicolon = 27
kind_number end_of_file = 28
kind_number invalid = 29

-- `==` on kinds.
unfoldable pub same_kind : TokenKind → TokenKind → Bool
unfolding kind_number
same_kind k l = kind_number k == kind_number l

-- `token_kind_name`
unfoldable pub token_kind_name : TokenKind → Bytes
token_kind_name kw_create = codes "CREATE"
token_kind_name kw_database = codes "DATABASE"
token_kind_name kw_drop = codes "DROP"
token_kind_name kw_use = codes "USE"
token_kind_name kw_table = codes "TABLE"
token_kind_name kw_select = codes "SELECT"
token_kind_name kw_from = codes "FROM"
token_kind_name kw_where = codes "WHERE"
token_kind_name kw_delete = codes "DELETE"
token_kind_name kw_insert = codes "INSERT"
token_kind_name kw_into = codes "INTO"
token_kind_name kw_values = codes "VALUES"
token_kind_name kw_update = codes "UPDATE"
token_kind_name kw_set = codes "SET"
token_kind_name kw_primary = codes "PRIMARY"
token_kind_name kw_int = codes "INT"
token_kind_name kw_string = codes "STRING"
token_kind_name identifier = codes "IDENTIFIER"
token_kind_name int_literal = codes "INT_LITERAL"
token_kind_name string_literal = codes "STRING_LITERAL"
token_kind_name op_eq = codes "="
token_kind_name op_lt = codes "<"
token_kind_name op_gt = codes ">"
token_kind_name op_star = codes "*"
token_kind_name lparen = codes "("
token_kind_name rparen = codes ")"
token_kind_name comma = codes ","
token_kind_name semicolon = codes ";"
token_kind_name end_of_file = codes "EOF"
token_kind_name invalid = codes "INVALID"

-- `Token`. The value is none where the sum that `scan_number` builds is larger than an int.
pub record Token : Type 0 where
  pub kind : TokenKind
  pub lexeme : Bytes
  pub line : ℕ
  pub column : ℕ
  pub int_value : Option ℕ
