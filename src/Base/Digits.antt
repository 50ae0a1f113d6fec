-- ===== src/Base/Digits.antt =====
-- A printed number is read back: `%d` and `%zu` against `atoi`.
use native.Mathlib.Numerals.{unary_clauses}
use Prim.Native.Nat.{min, ℕ, zero, suc, ◌+◌, ◌-◌, ◌*◌, ◌/◌, ◌%◌, ◌^◌, ◌<◌, ◌≤◌}
use mathlib.Core.Path.{◌≡◌, refl, sym, ap, ◌∙◌}
use mathlib.Core.Logic.{◌≢◌, inl, inr}
use mathlib.Core.Bool.{true, false}
use mathlib.Core.List.{[], ◌∷◌, ◌++◌}
use native.Mathlib.Omega.{arith}
use cpp_db.Base.Tests.{Bool-cases, ◌==◌, ltb, lt→ltb}
use cpp_db.Base.Lists.{All, length}
use cpp_db.Base.Int.{ℤ, pos, negsuc}
use cpp_db.Base.Text.{Bytes, is_digit, is_space, magnitude, skip_space, strtol, wrap_int, atoi}
use cpp_db.Base.Decimal.{print_digits, print_nat, print_int}

magnitude-digit :
    (acc d : ℕ) (cs : Bytes)
    → d < 10
    → magnitude acc ((b'0' + d) ∷ cs) ≡ magnitude (acc * 10 + d) cs
unfolding magnitude
magnitude-digit acc d cs h =
    let e : is_digit (b'0' + d) ≡ true = ground arith in
    let v : acc * 10 + (b'0' + d - b'0') ≡ acc * 10 + d = omega arith in rw (magnitude, e, v) refl

magnitude-print_digits :
    (f n : ℕ) (acc : Bytes) → n < 10 ^ f → magnitude 0 (print_digits f n acc) ≡ magnitude n acc
unfolding print_digits
magnitude-print_digits zero n acc h = let e : n ≡ 0 = omega arith in rw e refl
magnitude-print_digits (suc f) n acc h = elim (Bool-cases (n / 10 == 0)) [
  | inl e ↦
      let small : n / 10 ≡ 0 = ground arith in
      rw e (magnitude-digit 0 (n % 10) acc (omega arith) ∙ ap (λ k. magnitude k acc) (omega arith))
  | inr e ↦ rw e (
      magnitude-print_digits f (n / 10) ((b'0' + n % 10) ∷ acc)
        (let p : 10 ^ suc f ≡ 10 ^ f * 10 = simp unary_clauses refl in omega arith)
      ∙ magnitude-digit (n / 10) (n % 10) acc (omega arith)
      ∙ ap (λ k. magnitude k acc) (omega arith))
]

-- The first byte of a printed number is a digit.
print_digits_head :
    (f n : ℕ) (acc : Bytes)
    → (d : ℕ) × (ds : Bytes) × (print_digits (suc f) n acc ≡ d ∷ ds) × (is_digit d ≡ true)
unfolding print_digits
print_digits_head zero n acc = elim (Bool-cases (n / 10 == 0)) [
  | inl e ↦ (b'0' + n % 10, acc, rw e refl, ground arith)
  | inr e ↦ (b'0' + n % 10, acc, rw e refl, ground arith)
]
print_digits_head (suc f) n acc = elim (Bool-cases (n / 10 == 0)) [
  | inl e ↦ (b'0' + n % 10, acc, rw e refl, ground arith)
  | inr e ↦
      let (d, ds, u, g) = print_digits_head f (n / 10) ((b'0' + n % 10) ∷ acc) in (d, ds, rw e u, g)
]

print_digits-append :
    (f n : ℕ) (acc rest : Bytes) → print_digits f n acc ++ rest ≡ print_digits f n (acc ++ rest)
unfolding print_digits
print_digits-append zero n acc rest = refl
print_digits-append (suc f) n acc rest = elim (Bool-cases (n / 10 == 0)) [
  | inl e ↦ rw e refl
  | inr e ↦ rw e (print_digits-append f (n / 10) ((b'0' + n % 10) ∷ acc) rest)
]

wrap_int_small : (n : ℕ) → n < 2 ^ 31 → wrap_int n ≡ pos n
unfolding wrap_int
wrap_int_small n h =
    let e : n % 2 ^ 32 ≡ n = omega arith in
    let l : ltb n (2 ^ 31) ≡ true = lt→ltb n (2 ^ 31) h in rw (wrap_int, e, l) refl

atoi-digits :
    (d n : ℕ) (ds : Bytes)
    → is_digit d ≡ true
    → magnitude 0 (d ∷ ds) ≡ n
    → n < 2 ^ 31
    → atoi (d ∷ ds) ≡ pos n
unfolding atoi skip_space strtol
atoi-digits d n ds g m h =
    let no_space : is_space d ≡ false = ground arith in
    let no_minus : (d == b'-') ≡ false = ground arith in
    let no_plus : (d == b'+') ≡ false = ground arith in
    let small : min n (2 ^ 63 - 1) ≡ n = omega arith in
    rw (atoi, skip_space, no_space, strtol, no_minus, no_plus, m, small) (wrap_int_small n h)

-- `atoi` reads a natural number back that fits an int, before a text that does not go on with a digit.
pub atoi-print_nat :
    (n : ℕ) (rest : Bytes) → n < 2 ^ 31 → magnitude n rest ≡ n → atoi (print_nat n ++ rest) ≡ pos n
unfolding print_nat
atoi-print_nat n rest h stops =
    let (d, ds, u, g) = print_digits_head 19 n rest in
    let m : magnitude 0 (d ∷ ds) ≡ n =
      ap (magnitude 0) (sym u) ∙ magnitude-print_digits 20 n rest (omega arith) ∙ stops in
    ap atoi (print_digits-append 20 n [] rest ∙ u) ∙ atoi-digits d n ds g m h

-- The ints of C.
abbrev pub IsInt : ℤ → Type 0
IsInt (pos n) = n < 2 ^ 31
IsInt (negsuc n) = n < 2 ^ 31

wrap_int_negative : (n : ℕ) → n < 2 ^ 31 → wrap_int (2 ^ 64 - suc n) ≡ negsuc n
unfolding wrap_int
wrap_int_negative n h =
    let e : (2 ^ 64 - suc n) % 2 ^ 32 ≡ 2 ^ 32 - suc n = omega arith in
    let l : ltb (2 ^ 32 - suc n) (2 ^ 31) ≡ false = ground arith in
    let k : 2 ^ 32 - (2 ^ 32 - suc n) - 1 ≡ n = omega arith in rw (wrap_int, e, l, k) refl

atoi-minus :
    (n : ℕ) (ds : Bytes) → magnitude 0 ds ≡ suc n → n < 2 ^ 31 → atoi (b'-' ∷ ds) ≡ negsuc n
unfolding atoi skip_space strtol
atoi-minus n ds m h =
    let small : (2 ^ 64 - min (suc n) (2 ^ 63)) % 2 ^ 64 ≡ 2 ^ 64 - suc n = omega arith in
    rw (atoi, skip_space, strtol, m, small) (wrap_int_negative n h)

-- `atoi` reads every int back that is printed with `%d`.
pub atoi-print_int :
    (z : ℤ) (rest : Bytes)
    → IsInt z
    → ((n : ℕ) → magnitude n rest ≡ n)
    → atoi (print_int z ++ rest) ≡ z
unfolding print_int print_nat
atoi-print_int (pos n) rest h stops = atoi-print_nat n rest h (stops n)
atoi-print_int (negsuc n) rest h stops =
    ap (λ ds. atoi (b'-' ∷ ds)) (print_digits-append 20 (suc n) [] rest)
    ∙ atoi-minus n (print_digits 20 (suc n) rest)
        (magnitude-print_digits 20 (suc n) rest (omega arith) ∙ stops (suc n)) h

pub All-print_digits :
    (P : ℕ → Type 0)
    → ((d : ℕ) → d < 10 → P (b'0' + d))
    → (f n : ℕ) (acc : Bytes) → All P acc
    → All P (print_digits f n acc)
unfolding print_digits
All-print_digits P digit zero n acc h = h
All-print_digits P digit (suc f) n acc h = elim (Bool-cases (n / 10 == 0)) [
  | inl e ↦ rw e ((digit (n % 10) (omega arith), h))
  | inr e ↦ rw e (
      All-print_digits P digit f (n / 10) ((b'0' + n % 10) ∷ acc) (digit (n % 10) (omega arith), h))
]

length-print_digits : (f n : ℕ) (acc : Bytes) → length (print_digits f n acc) ≤ f + length acc
unfolding print_digits
length-print_digits zero n acc = omega arith
length-print_digits (suc f) n acc = elim (Bool-cases (n / 10 == 0)) [
  | inl e ↦ rw e (omega arith)
  | inr e ↦ rw e (omega (arith, length-print_digits f (n / 10) ((b'0' + n % 10) ∷ acc)))
]

pub length-print_nat : (n : ℕ) → length (print_nat n) ≤ 20
unfolding print_nat
length-print_nat n = length-print_digits 20 n []

pub All-print_nat :
    (P : ℕ → Type 0) → ((d : ℕ) → d < 10 → P (b'0' + d)) → (n : ℕ) → All P (print_nat n)
unfolding print_nat
All-print_nat P digit n = All-print_digits P digit 20 n [] tt

pub print_nat_present : (n : ℕ) → print_nat n ≢ []
unfolding print_nat
print_nat_present n e = let (d, ds, u, g) = print_digits_head 19 n [] in cc
