-- ===== src/Parser/Cursor/Bounds.antt =====
-- Reads of src/parser/parser.cpp stay inside the vector of tokens, as long as it ends with an
-- END_OF_FILE: a token is only stepped over when `check` has seen another kind.
use cpp_db.Base.{
  ℕ, suc, ◌≤◌, ◌<◌, ◌≡◌, Bool, true, false, List, [], ◌∷◌, arith, length, ◌⊎◌, inl, inr, ◌&&◌, not,
  Bool-cases, if◌then◌else◌, String,
}
use cpp_db.Parser.Token.{TokenKind, Token, same_kind}
use cpp_db.Parser.Cursor.{
  Outcome, done, refused, fault, Parser, ◌>>=◌, and_then, return, is_end, check, advance,
  make_error, take, skip,
}

-- One of the tokens is an END_OF_FILE.
abbrev pub Ended : List Token → Type 0
Ended [] = ⊥
Ended (t ∷ ts) = (is_end t ≡ true) ⊎ Ended ts

-- At most so many tokens are left, and an END_OF_FILE is among them.
abbrev pub At : ℕ → List Token → Type 0
At n ts = Ended ts × (length ts ≤ n)

-- The same behind the next token.
abbrev pub Behind : ℕ → List Token → Type 0
Behind n [] = ⊥
Behind n (t ∷ ts) = Ended ts × (length ts < n)

-- No read was outside.
abbrev pub Good : {A : Type 0} → ℕ → Outcome A → Type 0
Good n (done a ts) = At n ts
Good n (refused msg) = Unit
Good n fault = ⊥

abbrev pub Guarded : {A : Type 0} → ℕ → Parser A → Type 0
Guarded n p = (ts : List Token) → At n ts → Good n (p ts)

-- The same for a parser that runs when the next token is not the end.
abbrev pub Ahead : {A : Type 0} → ℕ → Parser A → Type 0
Ahead n p = (ts : List Token) → Behind n ts → Good n (p ts)

pub Good-later : {A : Type 0} (n : ℕ) (r : Outcome A) → Good n r → Good (suc n) r
Good-later n (done a ts) (e, l) = (e, omega arith)
Good-later n (refused msg) h = tt
Good-later n fault h = h

module _ {A B : Type 0} (n : ℕ) (f : A → Parser B) (k : (a : A) → Guarded n (f a)) where
  Good-and_then : (r : Outcome A) → Good n r → Good n (and_then r f)
  Good-and_then (done a ts) h = k a ts h
  Good-and_then (refused msg) h = tt
  Good-and_then fault h = h

  pub Guarded-bind : (p : Parser A) → Guarded n p → Guarded n (p >>= f)
  Guarded-bind p h ts a = Good-and_then (p ts) (h ts a)

  pub Ahead-bind : (p : Parser A) → Ahead n p → Ahead n (p >>= f)
  Ahead-bind p h ts a = Good-and_then (p ts) (h ts a)

pub Ahead-advance : (n : ℕ) → Ahead n advance
unfolding advance
Ahead-advance n [] h = h
Ahead-advance n (t ∷ ts) (e, l) = (e, omega arith)

pub Guarded-make_error : (A : Type 0) (n : ℕ) (msg : String) → Guarded n (make_error {A = A} msg)
unfolding make_error
Guarded-make_error A n msg [] (e, l) = absurd e
Guarded-make_error A n msg (t ∷ ts) h = tt

pub Ahead-make_error : (A : Type 0) (n : ℕ) (msg : String) → Ahead n (make_error {A = A} msg)
unfolding make_error
Ahead-make_error A n msg [] h = absurd h
Ahead-make_error A n msg (t ∷ ts) h = tt

module _ {B : Type 0} (n : ℕ) (kind : TokenKind) (f : Bool → Parser B) where
  -- A test either finds a token that may be stepped over, or changes nothing.
  pub Guarded-check : Ahead n (f true) → Guarded n (f false) → Guarded n (check kind >>= f)
  unfolding check
  Guarded-check then_ok else_ok [] (e, l) = absurd e
  Guarded-check then_ok else_ok (t ∷ ts) (e, l) = elim (Bool-cases (is_end t)) [
    | inl q ↦ rw (check, q) (else_ok (t ∷ ts) (e, l))
    | inr q ↦ elim (Bool-cases (same_kind t.kind kind)) [
      | inl p ↦ rw (check, q, p) (then_ok (t ∷ ts) (elim e [ inl r ↦ cc | inr r ↦ r ], omega arith))
      | inr p ↦ rw (check, q, p) (else_ok (t ∷ ts) (e, l))
    ]
  ]

  -- Once a token was seen that may be stepped over, further tests do not matter.
  pub Ahead-check : ((b : Bool) → Ahead n (f b)) → Ahead n (check kind >>= f)
  unfolding check
  Ahead-check k [] h = absurd h
  Ahead-check k (t ∷ ts) h = k (not (is_end t) && same_kind t.kind kind) (t ∷ ts) h

  -- What is read when the token was there may count on one token less.
  pub Guarded-skip :
      Guarded n (f true) → Guarded (suc n) (f false) → Guarded (suc n) (skip kind >>= f)
  unfolding skip check advance
  Guarded-skip then_ok else_ok [] (e, l) = absurd e
  Guarded-skip then_ok else_ok (t ∷ ts) (e, l) = elim (Bool-cases (is_end t)) [
    | inl q ↦ rw (skip, q) (else_ok (t ∷ ts) (e, l))
    | inr q ↦ elim (Bool-cases (same_kind t.kind kind)) [
      | inl p ↦
          rw (skip, q, p)
            (Good-later n (f true ts) (then_ok ts (elim e [ inl r ↦ cc | inr r ↦ r ], omega arith)))
      | inr p ↦ rw (skip, q, p) (else_ok (t ∷ ts) (e, l))
    ]
  ]

pub Guarded-return : {A : Type 0} (n : ℕ) (a : A) → Guarded n (return a)
Guarded-return n a ts h = h

pub Guarded-take : (n : ℕ) (kind : TokenKind) (msg : String) → Guarded n (take kind msg)
unfolding take
Guarded-take n kind msg =
    Guarded-check n kind (λ here. if here then advance else make_error msg) (Ahead-advance n)
      (Guarded-make_error _ n msg)

pub Guarded-option : (n : ℕ) (kind : TokenKind) → Guarded n (skip kind)
unfolding skip
Guarded-option n kind =
    Guarded-check n kind _ (Ahead-bind n _ (λ t. Guarded-return n true) advance (Ahead-advance n))
      (Guarded-return n false)

pub Guarded-if :
    {A : Type 0} (n : ℕ) (c : Bool) (p q : Parser A)
    → Guarded n p
    → Guarded n q
    → Guarded n (if c then p else q)
Guarded-if n true p q h k = h
Guarded-if n false p q h k = k

pub Good-mono : {A : Type 0} (m n : ℕ) (r : Outcome A) → m ≤ n → Good m r → Good n r
Good-mono m n (done a ts) le (e, l) = (e, omega arith)
Good-mono m n (refused msg) le h = tt
Good-mono m n fault le h = h
