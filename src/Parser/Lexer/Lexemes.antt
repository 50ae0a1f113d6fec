-- ===== src/Parser/Lexer/Lexemes.antt =====
-- src/parser/lexer.cpp: the lexemes of the tokens that the parser copies into a statement.
use cpp_db.Parser.Token.{TokenKind, Token, same_kind, kind_number}
use cpp_db.Base.{
  All, Bool, Bool-cases, List, OnResult, OnResult-Returns, Option, Option-cases, Returns, inl, inr,
  is_digit, length, ltb, none, refl, suc, zero, ◌+◌, ◌||◌, Bytes, [], arith, codes, some, true, ℕ,
  ◌&&◌, ◌==◌, ◌∷◌, ◌≡◌, ◌≢◌,
}
use cpp_db.Parser.Lexer.Scans.{match_keyword-IsWord, IsWord}
use cpp_db.Parser.Lexer.{
  Lexer, eof_at, is_letter, scan_identifier_or_keyword, scan_number, scan_string, scan_token,
  scan_tokens, skip_whitespace, start, step, take_string, take_word, tokenize, single_kind,
  token_at,
}
use cpp_db.Parser.Lexer.Tokens.{tokenize-Tokens}

-- An identifier has a name, and an operator its sign.
pub record Lexed (t : Token) : Type 0 where
  pub named : same_kind t.kind TokenKind.identifier ≡ true → t.lexeme ≢ []
  pub eq : same_kind t.kind TokenKind.op_eq ≡ true → t.lexeme ≡ codes "="
  pub lt : same_kind t.kind TokenKind.op_lt ≡ true → t.lexeme ≡ codes "<"
  pub gt : same_kind t.kind TokenKind.op_gt ≡ true → t.lexeme ≡ codes ">"
  pub star : same_kind t.kind TokenKind.op_star ≡ true → t.lexeme ≡ codes "*"

-- A word of one byte at least.
word-Lexed :
    (kind : TokenKind) (c : ℕ) (word : Bytes) (line column : ℕ)
    → IsWord kind
    → Lexed (token_at kind (c ∷ word) line column)
unfolding same_kind
word-Lexed kind c word line column w = record {
  named = λ e f. cc;
  eq = λ e. ground arith;
  lt = λ e. ground arith;
  gt = λ e. ground arith;
  star = λ e. ground arith;
}

-- A kind whose lexeme is free: literals, punctuation, the end and errors.
abbrev is_plain : TokenKind → Bool
is_plain k = let n = kind_number k in ltb 17 n && ltb n 20 || ltb 23 n

plain-Lexed : (t : Token) → is_plain t.kind ≡ true → Lexed t
unfolding same_kind kind_number
plain-Lexed t w = record {
  named = λ e. ground arith;
  eq = λ e. ground arith;
  lt = λ e. ground arith;
  gt = λ e. ground arith;
  star = λ e. ground arith;
}

single-Lexed :
    (c : ℕ) (kind : TokenKind) (line column : ℕ)
    → single_kind c ≡ some kind
    → Lexed (token_at kind (c ∷ []) line column)
unfolding same_kind kind_number
single-Lexed c kind line column e = record {
  named = λ f g. cc;
  eq = λ f. ground arith;
  lt = λ f. ground arith;
  gt = λ f. ground arith;
  star = λ f. ground arith;
}

scan_string-Lexed : (cs : Bytes) (l : Lexer) → Lexed (scan_string cs l).0
unfolding scan_string kind_number
scan_string-Lexed cs l =
    (elim (take_string cs (step l cs)).1.rest
        as (λ r. (take_string cs (step l cs)).1.rest ≡ r → Lexed (scan_string cs l).0) [
          | [] ↦ λ e. rw (scan_string, e) (plain-Lexed _ refl)
          | q ∷ qs ↦ λ e. rw (scan_string, e) (plain-Lexed _ refl)
        ])
      refl

scan_token-Lexed : (c : ℕ) (cs : Bytes) (l : Lexer) → l.rest ≡ c ∷ cs → Lexed (scan_token c cs l).0
unfolding scan_token scan_identifier_or_keyword take_word scan_number kind_number
scan_token-Lexed c cs l e = elim (Option-cases (single_kind c)) [
  | inr (k, g) ↦ rw (scan_token, g) (single-Lexed c k l.line l.col g)
  | inl g ↦ elim (Bool-cases (c == b'"')) [
    | inl q ↦ rw (scan_token, g, q) (scan_string-Lexed cs l)
    | inr q ↦ elim (Bool-cases (is_digit c)) [
      | inl d ↦ rw (scan_token, g, q, d) (plain-Lexed (scan_number l).0 refl)
      | inr d ↦ elim (Bool-cases (is_letter c)) [
        | inl w ↦
            rw (scan_token, g, q, d, w, scan_identifier_or_keyword, e, take_word, w)
              (word-Lexed _ c _ _ _ (match_keyword-IsWord (c ∷ (take_word cs (step l cs)).0)))
        | inr w ↦ rw (scan_token, g, q, d, w) (plain-Lexed _ refl)
      ]
    ]
  ]
]

eof_at-Lexed : (l : Lexer) → Lexed (eof_at l)
unfolding kind_number
eof_at-Lexed l = plain-Lexed (eof_at l) refl

prepend-Lexed :
    (t : Token) (o : Option (List Token × Lexer))
    → Lexed t
    → OnResult o (λ r. All Lexed r.0)
    → OnResult {A = List Token × Lexer}
        (elim o [ none ↦ none | some (ts, l3) ↦ some (t ∷ ts, l3) ])
        (λ r. All Lexed r.0)
prepend-Lexed t none k h = h
prepend-Lexed t (some (ts, l3)) k h = (k, h)

scan_tokens-Lexed : (fuel : ℕ) (l : Lexer) → OnResult (scan_tokens fuel l) (λ r. All Lexed r.0)
unfolding scan_tokens
scan_tokens-Lexed zero l = tt
scan_tokens-Lexed (suc fuel) l =
    (elim (skip_whitespace l.rest l).rest
        as (λ r.
          (skip_whitespace l.rest l).rest ≡ r
          → OnResult (scan_tokens (suc fuel) l) (λ r. All Lexed r.0)) [
            | [] ↦ λ e. rw (scan_tokens, e) ((eof_at-Lexed (skip_whitespace l.rest l), tt))
            | c ∷ cs ↦ λ e.
                let l1 : Lexer = skip_whitespace l.rest l in
                elim (Bool-cases (scan_token c cs l1).1.has_error) [
                  | inl g ↦
                      rw (scan_tokens, e, g)
                        ((scan_token-Lexed c cs l1 e, (eof_at-Lexed (scan_token c cs l1).1, tt)))
                  | inr g ↦
                      rw (scan_tokens, e, g)
                        (prepend-Lexed (scan_token c cs l1).0
                          (scan_tokens fuel (scan_token c cs l1).1) (scan_token-Lexed c cs l1 e)
                          (scan_tokens-Lexed fuel (scan_token c cs l1).1))
                ]
          ])
      refl

-- The tokens of a text have their lexemes, whatever the text is.
pub tokenize-Lexed : (sql : Bytes) → Returns (tokenize sql) (λ r. All Lexed r.0)
unfolding tokenize
tokenize-Lexed sql =
    OnResult-Returns (tokenize sql) _ _ (tokenize-Tokens sql)
      (scan_tokens-Lexed (length sql + 1) (start sql))
