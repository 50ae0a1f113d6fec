-- ===== src/Base/Decimal.antt =====
-- What the program prints through `snprintf` and `fprintf`: decimal numbers, and a text cut to a
-- buffer.
use Prim.Native.Nat.{ℕ, zero, suc, ◌+◌, ◌-◌, ◌/◌, ◌%◌}
use mathlib.Core.Path.{◌≡◌, refl}
use mathlib.Core.List.{[], ◌∷◌}
use cpp_db.Base.Tests.{◌==◌, if◌then◌else◌}
use cpp_db.Base.Lists.{take}
use cpp_db.Base.Int.{ℤ, pos, negsuc}
use cpp_db.Base.Text.{Bytes, codes}

-- The digits of a number before what is given, with one unit of fuel for each digit.
unfoldable pub print_digits : ℕ → ℕ → Bytes → Bytes
print_digits zero n acc = acc
print_digits (suc f) n acc =
    let digits = (b'0' + n % 10) ∷ acc in
    let rest = print_digits f (n / 10) digits in if n / 10 == 0 then digits else rest

-- `%zu` and `%d` of a number: 20 digits hold every 64-bit number.
unfoldable pub print_nat : ℕ → Bytes
unfolding print_digits
print_nat n = print_digits 20 n []

-- `%d`
unfoldable pub print_int : ℤ → Bytes
unfolding print_nat
print_int (pos n) = print_nat n
print_int (negsuc n) = b'-' ∷ print_nat (suc n)

-- What `snprintf` leaves in a buffer of the size: the text, cut to leave room for the final NUL.
unfoldable pub snprintf : ℕ → Bytes → Bytes
snprintf size text = take (size - 1) text

print_int_runs :
    (print_int (pos 1001) ≡ codes "1001")
    × (print_int (negsuc 11) ≡ codes "-12")
    × (print_int (pos 0) ≡ codes "0")
unfolding print_int
print_int_runs = (refl, refl, refl)
