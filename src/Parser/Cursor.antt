-- ===== src/Parser/Cursor.antt =====
-- The helpers of src/parser/parser.cpp: a parser reads the tokens that are left. The pointer `_tokens`
-- with the offset `_pos` is the list of these tokens.
pub mod Bounds
pub mod Makes
use cpp_db.Base.{
  ℕ, Bool, true, false, ◌&&◌, not, List, [], ◌∷◌, ◌++◌, Bytes, codes, String, snprintf, print_nat,
  if◌then◌else◌,
}
use cpp_db.Parser.Token.{TokenKind, Token, same_kind}

-- A value with the tokens that are left, the message of an INVALID statement that is returned at once,
-- or a read behind the last token.
pub data Outcome (A : Type 0) : Type 0 where
  done : A → List Token → Outcome A
  refused : Bytes → Outcome A
  fault : Outcome A

abbrev pub Parser : Type 0 → Type 0
Parser A = List Token → Outcome A

abbrev pub and_then : {A B : Type 0} → Outcome A → (A → Parser B) → Outcome B
and_then (done a ts) f = f a ts
and_then (refused msg) f = refused msg
and_then fault f = fault

infixl 5 ◌>>=◌
abbrev pub ◌>>=◌ : {A B : Type 0} → Parser A → (A → Parser B) → Parser B
(p >>= f) ts = and_then (p ts) f

abbrev pub return : {A : Type 0} → A → Parser A
return a ts = done a ts

-- `is_at_end`
abbrev pub is_end : Token → Bool
is_end t = same_kind t.kind TokenKind.end_of_file

-- `check`: whether the next token is of the kind, and not the end.
unfoldable pub check : TokenKind → Parser Bool
unfolding same_kind
check kind [] = fault
check kind (t ∷ ts) = done (not (is_end t) && same_kind t.kind kind) (t ∷ ts)

-- `advance`
unfoldable pub advance : Parser Token
advance [] = fault
advance (t ∷ ts) = done t ts

-- `make_error`
unfoldable pub make_error : {A : Type 0} → String → Parser A
unfolding snprintf print_nat
make_error msg [] = fault
make_error msg (t ∷ ts) = refused (
    snprintf 512 (
      codes "Line "
      ++ (print_nat t.line ++ (codes ":" ++ (print_nat t.column ++ (codes ": " ++ codes msg))))))

-- `if (!check(kind)) return make_error(msg); advance()`
unfoldable pub take : TokenKind → String → Parser Token
unfolding check advance make_error
take kind msg = do here ← check kind; if here then advance else make_error msg

-- `if (check(kind)) advance()`, and whether it was there.
unfoldable pub skip : TokenKind → Parser Bool
unfolding check advance
skip kind = do here ← check kind; if here then (do _ ← advance; return true) else return false
