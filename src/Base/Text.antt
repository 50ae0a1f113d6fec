-- ===== src/Base/Text.antt =====
-- C strings as lists of bytes (the bytes before the terminating NUL), their comparison, and
-- `std::atoi` as glibc computes it on a 64-bit Linux: `(int)strtol(s, NULL, 10)`.
use Prim.Native.Nat.{ℕ, ◌+◌, ◌-◌, ◌*◌, ◌%◌, ◌^◌, min}
use Prim.Native.Char.{code}
use Prim.Native.String.{String}
use mathlib.Core.Path.{◌≡◌, refl}
use mathlib.Core.Logic.{◌↔◌}
use mathlib.Core.Bool.{Bool, true, false, ◌&&◌, ◌||◌}
use mathlib.Core.List.{List, [], ◌∷◌}
use native.Mathlib.Omega.{arith}
use cpp_db.Base.Tests.{ltb, leb, ◌==◌, if◌then◌else◌}
use cpp_db.Base.Int.{ℤ, pos, negsuc}

abbrev pub Bytes : Type 0
Bytes = List ℕ

-- The bytes of an ASCII literal.
abbrev pub codes : String → Bytes
codes String.[] = []
codes (String.◌∷◌ c s) = code c ∷ codes s

-- Equality of two strings: the lengths, then `memcmp`.
unfoldable pub str_eq : Bytes → Bytes → Bool
str_eq [] [] = true
str_eq [] (y ∷ ys) = false
str_eq (x ∷ xs) [] = false
str_eq (x ∷ xs) (y ∷ ys) = (x == y) && str_eq xs ys

str_eq_sound : (xs ys : Bytes) → str_eq xs ys ≡ true → xs ≡ ys
unfolding str_eq
str_eq_sound [] [] h = refl
str_eq_sound [] (y ∷ ys) h = cc
str_eq_sound (x ∷ xs) [] h = cc
str_eq_sound (x ∷ xs) (y ∷ ys) h = ground (arith, str_eq_sound xs ys)

pub str_eq_refl : (xs : Bytes) → str_eq xs xs ≡ true
unfolding str_eq
str_eq_refl [] = refl
str_eq_refl (x ∷ xs) = ground (arith, str_eq_refl xs)

pub str_eq_iff : (xs ys : Bytes) → (str_eq xs ys ≡ true) ↔ (xs ≡ ys)
str_eq_iff xs ys = (str_eq_sound xs ys, λ e. rw e (str_eq_refl ys))

abbrev pub is_empty : Bytes → Bool
is_empty [] = true
is_empty (x ∷ xs) = false

abbrev pub is_digit : ℕ → Bool
is_digit c = leb b'0' c && leb c b'9'

-- `isspace` of the "C" locale.
abbrev pub is_space : ℕ → Bool
is_space c = c == b' ' || (leb 9 c && leb c 13)

unfoldable pub skip_space : Bytes → Bytes
skip_space [] = []
skip_space (c ∷ cs) = let rest = skip_space cs in if is_space c then rest else c ∷ cs

-- The value of the leading digits.
unfoldable pub magnitude : ℕ → Bytes → ℕ
magnitude acc [] = acc
magnitude acc (c ∷ cs) =
    let rest = magnitude (acc * 10 + (c - b'0')) cs in if is_digit c then rest else acc

-- The `int` with the low 32 bits of a number.
unfoldable pub wrap_int : ℕ → ℤ
wrap_int n = let m = n % 2 ^ 32 in if ltb m (2 ^ 31) then pos m else negsuc (2 ^ 32 - m - 1)

-- `strtol`, clamped to a 64-bit `long` and given modulo 2 ^ 64.
unfoldable pub strtol : Bytes → ℕ
unfolding magnitude
strtol [] = 0
strtol (c ∷ cs) =
    if c == b'-'
    then (2 ^ 64 - min (magnitude 0 cs) (2 ^ 63)) % 2 ^ 64
    else if c == b'+'
    then min (magnitude 0 cs) (2 ^ 63 - 1)
    else min (magnitude 0 (c ∷ cs)) (2 ^ 63 - 1)

unfoldable pub atoi : Bytes → ℤ
unfolding skip_space strtol wrap_int
atoi s = wrap_int (strtol (skip_space s))

atoi_runs :
    (atoi (codes "1001") ≡ pos 1001)
    × (atoi (codes " -7x") ≡ negsuc 6)
    × (atoi (codes "4294967297") ≡ pos 1)
    × (atoi (codes "abc") ≡ pos 0)
unfolding atoi
atoi_runs = (refl, refl, refl, refl)
