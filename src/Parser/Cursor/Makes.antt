-- ===== src/Parser/Cursor/Makes.antt =====
-- Rules for what a parser of src/parser/parser.cpp makes of tokens that have their lexemes: one rule
-- for each of the helpers.
use cpp_db.Base.{
  All, Bool, Bool-cases, List, String, [], false, if◌then◌else◌, inl, inr, not, refl, true, ◌&&◌,
  ◌∷◌, ◌≡◌,
}
use cpp_db.Parser.Lexer.Lexemes.{Lexed}
use cpp_db.Parser.Cursor.{
  done, fault, take, ◌>>=◌, Outcome, Parser, advance, and_then, check, is_end, make_error, refused,
  return, skip,
}
use cpp_db.Parser.Token.{Token, TokenKind, same_kind}

-- What holds of the value, with the tokens that are left.
abbrev pub Made : {A : Type 0} → (A → Type 0) → Outcome A → Type 0
Made P (done a ts) = P a × All Lexed ts
Made P (refused msg) = Unit
Made P fault = Unit

abbrev pub Makes : {A : Type 0} → (A → Type 0) → Parser A → Type 0
Makes P p = (ts : List Token) → All Lexed ts → Made P (p ts)

abbrev pub First : (Token → Type 0) → List Token → Type 0
First K [] = ⊥
First K (t ∷ ts) = K t

-- The same for a parser that runs when the next token is known to be of a kind.
abbrev pub Takes : {A : Type 0} → (Token → Type 0) → (A → Type 0) → Parser A → Type 0
Takes K P p = (ts : List Token) → First K ts → All Lexed ts → Made P (p ts)

abbrev pub IsKind : TokenKind → Token → Type 0
IsKind kind t = same_kind t.kind kind ≡ true

module _ {A B : Type 0} (P : A → Type 0) (Q : B → Type 0) (f : A → Parser B)
    (k : (a : A) → P a → Makes Q (f a)) where
  Made-and_then : (r : Outcome A) → Made P r → Made Q (and_then r f)
  Made-and_then (done a ts) (p, l) = k a p ts l
  Made-and_then (refused msg) h = tt
  Made-and_then fault h = tt

  pub Makes-bind : (p : Parser A) → Makes P p → Makes Q (p >>= f)
  Makes-bind p h ts l = Made-and_then (p ts) (h ts l)

  pub Takes-bind : (K : Token → Type 0) (p : Parser A) → Takes K P p → Takes K Q (p >>= f)
  Takes-bind K p h ts e l = Made-and_then (p ts) (h ts e l)

pub Makes-return : {A : Type 0} (P : A → Type 0) (a : A) → P a → Makes P (return a)
Makes-return P a p ts l = (p, l)

pub Makes-make_error : {A : Type 0} (P : A → Type 0) (msg : String) → Makes P (make_error msg)
unfolding make_error
Makes-make_error P msg [] l = tt
Makes-make_error P msg (t ∷ ts) l = tt

pub Makes-if :
    {A : Type 0} (P : A → Type 0) (c : Bool) (p q : Parser A)
    → (c ≡ true → Makes P p)
    → (c ≡ false → Makes P q)
    → Makes P (if c then p else q)
Makes-if P true p q h k = h refl
Makes-if P false p q h k = k refl

module _ {B : Type 0} (Q : B → Type 0) where
  pub Makes-advance :
      (f : Token → Parser B) → ((t : Token) → Makes Q (f t)) → Makes Q (advance >>= f)
  unfolding advance
  Makes-advance f k [] l = tt
  Makes-advance f k (t ∷ ts) (h, l) = k t ts l

  pub Takes-advance :
      (K : Token → Type 0) (f : Token → Parser B)
      → ((t : Token) → K t → Lexed t → Makes Q (f t))
      → Takes K Q (advance >>= f)
  unfolding advance
  Takes-advance K f k [] e l = absurd e
  Takes-advance K f k (t ∷ ts) e (h, l) = k t e h ts l

  pub Makes-check :
      (kind : TokenKind) (f : Bool → Parser B)
      → Takes (IsKind kind) Q (f true)
      → Makes Q (f false)
      → Makes Q (check kind >>= f)
  unfolding check
  Makes-check kind f then_ok else_ok [] l = tt
  Makes-check kind f then_ok else_ok (t ∷ ts) l = elim (Bool-cases (is_end t)) [
    | inl q ↦ rw (check, q) (else_ok (t ∷ ts) l)
    | inr q ↦ elim (Bool-cases (same_kind t.kind kind)) [
      | inl p ↦ rw (check, q, p) (then_ok (t ∷ ts) p l)
      | inr p ↦ rw (check, q, p) (else_ok (t ∷ ts) l)
    ]
  ]

  pub Takes-check :
      (K : Token → Type 0) (kind : TokenKind) (f : Bool → Parser B)
      → ((b : Bool) → Takes K Q (f b))
      → Takes K Q (check kind >>= f)
  unfolding check
  Takes-check K kind f k [] e l = absurd e
  Takes-check K kind f k (t ∷ ts) e l = k (not (is_end t) && same_kind t.kind kind) (t ∷ ts) e l

module _ {B : Type 0} (Q : B → Type 0) where
  pub Makes-take :
      (kind : TokenKind) (msg : String) (f : Token → Parser B)
      → ((t : Token) → IsKind kind t → Lexed t → Makes Q (f t))
      → Makes Q (take kind msg >>= f)
  unfolding take advance
  Makes-take kind msg f k =
      Makes-bind (λ t. IsKind kind t × Lexed t) Q f (λ t h. k t h.0 h.1) (take kind msg)
        (Makes-check (λ t. IsKind kind t × Lexed t) kind
          (λ here. if here then advance else make_error msg) seen
          (Makes-make_error (λ t. IsKind kind t × Lexed t) msg))
    where
      seen : Takes (IsKind kind) (λ t. IsKind kind t × Lexed t) advance
      seen [] e l = absurd e
      seen (t ∷ ts) e l = ((e, l.0), l.1)

  pub Makes-skip :
      (kind : TokenKind) (f : Bool → Parser B)
      → ((b : Bool) → Makes Q (f b))
      → Makes Q (skip kind >>= f)
  unfolding skip advance
  Makes-skip kind f k =
      Makes-bind (λ b. Unit) Q f (λ b _. k b) (skip kind)
        (Makes-check (λ b. Unit) kind _ seen (λ ts l. (tt, l)))
    where
      seen : Takes (IsKind kind) (λ b. Unit) (advance >>= λ _. return true)
      seen [] e l = absurd e
      seen (t ∷ ts) e l = (tt, l.1)
