-- ===== src/Parser/Lexer/Scans.antt =====
-- src/parser/lexer.cpp: what each scan leaves of the text, and the kind of its token.
use cpp_db.Base.{
  ltb, ◌&&◌, ◌<◌, ℕ, ◌+◌, ◌-◌, ◌≤◌, ◌≡◌, refl, Bool, true, false, List, [], ◌∷◌, Option, some,
  Bytes, arith, length, inl, inr, Bool-cases, Option-cases, is_digit, ◌==◌,
}
use cpp_db.Parser.Token.{kind_number, TokenKind, Token, same_kind}
use cpp_db.Parser.Lexer.{
  Lexer, step, skip_whitespace, is_letter, take_word, keywords, first_keyword, match_keyword,
  scan_identifier_or_keyword, take_digits, scan_number, take_string, scan_string, single_kind,
  add_digit, scan_token,
}

-- An END_OF_FILE token.
abbrev pub is_eof : Token → Bool
is_eof t = same_kind t.kind TokenKind.end_of_file

-- No more text is left than so many bytes, and the error flag is as before.
abbrev pub Leaves : ℕ → Lexer → Lexer → Type 0
Leaves n l l' = (length l'.rest ≤ n) × (l'.has_error ≡ l.has_error)

pub skip_whitespace-Leaves :
    (cs : Bytes) (l : Lexer) → l.rest ≡ cs → Leaves (length cs) l (skip_whitespace cs l)
unfolding skip_whitespace
skip_whitespace-Leaves [] l e = (ground arith, refl)
skip_whitespace-Leaves (c ∷ cs) l e =
    let (n, h) = skip_whitespace-Leaves cs (step l cs) refl in
    let (n', h') =
      skip_whitespace-Leaves cs (record l { rest = cs; line = l.line + 1; col = 1 }) refl in
    ground arith

take_word-Leaves : (cs : Bytes) (l : Lexer) → l.rest ≡ cs → Leaves (length cs) l (take_word cs l).1
unfolding take_word
take_word-Leaves [] l e = (ground arith, refl)
take_word-Leaves (c ∷ cs) l e = let (n, h) = take_word-Leaves cs (step l cs) refl in ground arith

take_digits-Leaves :
    (cs : Bytes) (v : Option ℕ) (l : Lexer)
    → l.rest ≡ cs
    → Leaves (length cs) l (take_digits cs v l).2
unfolding take_digits
take_digits-Leaves [] v l e = (ground arith, refl)
take_digits-Leaves (c ∷ cs) v l e =
    let (n, h) = take_digits-Leaves cs (add_digit v (c - b'0')) (step l cs) refl in ground arith

take_string-Leaves :
    (cs : Bytes) (l : Lexer) → l.rest ≡ cs → Leaves (length cs) l (take_string cs l).1
unfolding take_string
take_string-Leaves [] l e = (ground arith, refl)
take_string-Leaves (c ∷ cs) l e =
    let (n, h) = take_string-Leaves cs (step l cs) refl in ground arith

-- The scan of a token: unless it fails it takes the first byte at least, and its token is none of the
-- END_OF_FILE kind. A failing scan gives an INVALID token.
pub record Scanned (n : ℕ) (r : Token × Lexer) : Type 0 where
  pub text : r.1.has_error ≡ false → length r.1.rest ≤ n
  pub kind : is_eof r.0 ≡ false
  pub flag : r.1.has_error ≡ true → same_kind r.0.kind TokenKind.invalid ≡ true

NotEof : TokenKind → Type 0
NotEof k = same_kind k TokenKind.end_of_file ≡ false

-- The keywords, and the kinds that a word can have: those up to IDENTIFIER.
abbrev pub IsWord : TokenKind → Type 0
IsWord k = kind_number k < 18

abbrev all_words : List (Bytes × TokenKind) → Bool
all_words [] = true
all_words (k ∷ ks) = ltb (kind_number k.1) 18 && all_words ks

first_keyword-IsWord :
    (ks : List (Bytes × TokenKind)) (word : Bytes)
    → all_words ks ≡ true
    → IsWord (first_keyword ks word)
unfolding first_keyword kind_number
first_keyword-IsWord [] word a = omega arith
first_keyword-IsWord (k ∷ ks) word a = ground (arith, first_keyword-IsWord ks word)

pub match_keyword-IsWord : (word : Bytes) → IsWord (match_keyword word)
unfolding match_keyword kind_number
match_keyword-IsWord word = first_keyword-IsWord keywords word refl

match_keyword-NotEof : (word : Bytes) → NotEof (match_keyword word)
unfolding same_kind kind_number NotEof
match_keyword-NotEof word = let h = match_keyword-IsWord word in ground arith

single_kind-NotEof : (c : ℕ) (k : TokenKind) → single_kind c ≡ some k → NotEof k
unfolding same_kind NotEof
single_kind-NotEof c k e = ground arith

scan_identifier-Scanned :
    (c : ℕ) (cs : Bytes) (l : Lexer)
    → l.rest ≡ c ∷ cs
    → l.has_error ≡ false
    → is_letter c ≡ true
    → Scanned (length cs) (scan_identifier_or_keyword l)
unfolding scan_identifier_or_keyword take_word NotEof
scan_identifier-Scanned c cs l e f q =
    let (n, h) = take_word-Leaves cs (step l cs) refl in
    rw (scan_identifier_or_keyword, e, take_word, q)
      (record {
        text = λ _. n;
        kind = match_keyword-NotEof (c ∷ (take_word cs (step l cs)).0);
        flag = λ g. cc;
      })

scan_number-Scanned :
    (c : ℕ) (cs : Bytes) (l : Lexer)
    → l.rest ≡ c ∷ cs
    → l.has_error ≡ false
    → is_digit c ≡ true
    → Scanned (length cs) (scan_number l)
unfolding scan_number take_digits same_kind
scan_number-Scanned c cs l e f q =
    let (n, h) = take_digits-Leaves cs (add_digit (some 0) (c - b'0')) (step l cs) refl in
    rw (scan_number, e, take_digits, q) (record { text = λ _. n; kind = refl; flag = λ g. cc })

scan_string-Scanned :
    (cs : Bytes) (l : Lexer) → l.has_error ≡ false → Scanned (length cs) (scan_string cs l)
unfolding scan_string same_kind
scan_string-Scanned cs l f =
    let (n, h) = take_string-Leaves cs (step l cs) refl in
    (elim (take_string cs (step l cs)).1.rest
        as (λ r. (take_string cs (step l cs)).1.rest ≡ r → Scanned (length cs) (scan_string cs l)) [
          | [] ↦ λ e. rw (scan_string, e) (record { text = λ g. cc; kind = refl; flag = λ g. refl })
          | q ∷ qs ↦ λ e.
              rw (scan_string, e) (record { text = λ g. ground arith; kind = refl; flag = λ g. cc })
        ])
      refl

pub scan_token-Scanned :
    (c : ℕ) (cs : Bytes) (l : Lexer)
    → l.rest ≡ c ∷ cs
    → l.has_error ≡ false
    → Scanned (length cs) (scan_token c cs l)
unfolding scan_token same_kind NotEof
scan_token-Scanned c cs l e f = elim (Option-cases (single_kind c)) [
  | inr (k, g) ↦
      rw (scan_token, g)
        (record { text = λ _. omega arith; kind = single_kind-NotEof c k g; flag = λ h. cc })
  | inl g ↦ elim (Bool-cases (c == b'"')) [
    | inl q ↦ rw (scan_token, g, q) (scan_string-Scanned cs l f)
    | inr q ↦ elim (Bool-cases (is_digit c)) [
      | inl d ↦ rw (scan_token, g, q, d) (scan_number-Scanned c cs l e f d)
      | inr d ↦ elim (Bool-cases (is_letter c)) [
        | inl w ↦ rw (scan_token, g, q, d, w) (scan_identifier-Scanned c cs l e f w)
        | inr w ↦
            rw (scan_token, g, q, d, w) (record { text = λ h. cc; kind = refl; flag = λ h. refl })
      ]
    ]
  ]
]
