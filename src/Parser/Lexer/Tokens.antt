-- ===== src/Parser/Lexer/Tokens.antt =====
-- src/parser/lexer.cpp: the loop of `tokenize` comes to an end, and what its tokens end with.
use cpp_db.Base.{
  ℕ, zero, suc, ◌+◌, ◌<◌, ◌≡◌, refl, true, false, List, [], ◌∷◌, Option, none, some, Bytes, arith,
  length, ◌⊎◌, inl, inr, Bool-cases, Returns, ap, ◌∙◌,
}
use cpp_db.Parser.Token.{TokenKind, Token, same_kind}
use cpp_db.Parser.Lexer.{Lexer, skip_whitespace, scan_token, eof_at, scan_tokens, start, tokenize}
use cpp_db.Parser.Lexer.Scans.{is_eof, skip_whitespace-Leaves, scan_token-Scanned}

-- The tokens end with their only END_OF_FILE.
abbrev pub Closed : List Token → Type 0
Closed [] = ⊥
Closed (t ∷ []) = is_eof t ≡ true
Closed (t ∷ u ∷ ts) = (is_eof t ≡ false) × Closed (u ∷ ts)

pub Closed-cons : (t : Token) (ts : List Token) → is_eof t ≡ false → Closed ts → Closed (t ∷ ts)
Closed-cons t [] e c = absurd c
Closed-cons t (u ∷ us) e c = (e, c)

-- One of the tokens is INVALID.
abbrev pub HasInvalid : List Token → Type 0
HasInvalid [] = ⊥
HasInvalid (t ∷ ts) = (same_kind t.kind TokenKind.invalid ≡ true) ⊎ HasInvalid ts

-- The tokens end with their only END_OF_FILE, and under the flag of an error one of them is INVALID.
pub record Tokens (r : List Token × Lexer) : Type 0 where
  pub closed : Closed r.0
  pub flagged : r.1.has_error ≡ true → HasInvalid r.0

eof_at-eof : (l : Lexer) → is_eof (eof_at l) ≡ true
unfolding same_kind
eof_at-eof l = refl

scan_tokens-Tokens :
    (fuel : ℕ) (l : Lexer)
    → length l.rest < fuel
    → l.has_error ≡ false
    → Returns (scan_tokens fuel l) Tokens
unfolding scan_tokens
scan_tokens-Tokens zero l lt f = absurd (omega arith)
scan_tokens-Tokens (suc fuel) l lt f =
    (elim (skip_whitespace l.rest l).rest
        as (λ r. (skip_whitespace l.rest l).rest ≡ r → Returns (scan_tokens (suc fuel) l) Tokens) [
          | [] ↦ λ e.
              let (n, h) = skip_whitespace-Leaves l.rest l refl in
              rw (scan_tokens, e)
                (record {
                  closed = eof_at-eof (skip_whitespace l.rest l);
                  flagged = λ g. absurd (cc);
                })
          | c ∷ cs ↦ λ e.
              let l1 : Lexer = skip_whitespace l.rest l in
              let (n, h) = skip_whitespace-Leaves l.rest l refl in
              let s = scan_token-Scanned c cs l1 e (h ∙ f) in
              elim (Bool-cases (scan_token c cs l1).1.has_error) [
                | inl g ↦
                    rw (scan_tokens, e, g)
                      (record {
                        closed = (s.kind, eof_at-eof (scan_token c cs l1).1);
                        flagged = λ _. inl (s.flag g);
                      })
                | inr g ↦
                    rw (scan_tokens, e, g)
                      (prepend (scan_token c cs l1).0 (scan_tokens fuel (scan_token c cs l1).1)
                        s.kind
                        (scan_tokens-Tokens fuel (scan_token c cs l1).1
                          (omega (arith, s.text g, n, ap length e)) g))
              ]
        ])
      refl
  where
    prepend :
        (t : Token) (o : Option (List Token × Lexer))
        → is_eof t ≡ false
        → Returns o Tokens
        → Returns (elim o [ none ↦ none | some (ts, l3) ↦ some (t ∷ ts, l3) ]) Tokens
    prepend t none k h = h
    prepend t (some (ts, l3)) k h = record {
      closed = Closed-cons t ts k h.closed;
      flagged = λ g. inr (h.flagged g);
    }

-- `tokenize` comes to an end on every text. Its tokens end with END_OF_FILE and hold no other, and if
-- it reports an error then one of them is INVALID.
pub tokenize-Tokens : (sql : Bytes) → Returns (tokenize sql) Tokens
unfolding tokenize
tokenize-Tokens sql = scan_tokens-Tokens (length sql + 1) (start sql) (omega arith) refl
