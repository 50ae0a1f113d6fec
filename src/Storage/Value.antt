-- ===== src/Storage/Value.antt =====
-- src/storage/row.hpp and row.cpp: cell values, their comparison, and rows.
pub mod Order
use cpp_db.Base.{
  ℕ, zero, suc, Bool, true, false, List, [], ◌∷◌, ℤ, pos, negsuc, ltb, ltb_ℤ, ◌==◌, if◌then◌else◌,
  Bytes,
}

-- `Value`: the type tag with the member that it makes valid.
pub data Value : Type 0 where
  int : ℤ → Value
  string : Bytes → Value
  none : Value

-- `Row`, by its one field `_values`.
abbrev pub Row : Type 0
Row = List Value

unfoldable pub is_int : Value → Bool
is_int (int n) = true
is_int _ = false

-- `std::strcmp`: bytes compare as unsigned chars, and the first difference decides. C fixes only the
-- sign of the result; -1, 0 and 1 stand for it.
unfoldable pub strcmp : Bytes → Bytes → ℤ
strcmp [] [] = pos 0
strcmp [] (y ∷ ys) = negsuc 0
strcmp (x ∷ xs) [] = pos 1
strcmp (x ∷ xs) (y ∷ ys) =
    let rest = strcmp xs ys in if x == y then rest else if ltb x y then negsuc 0 else pos 1

-- The comparison of two ints.
unfoldable pub compare_int : ℤ → ℤ → ℤ
compare_int a b = if ltb_ℤ a b then negsuc 0 else if ltb_ℤ b a then pos 1 else pos 0

-- `Value::compare`: negative, zero or positive.
unfoldable pub compare : Value → Value → ℤ
unfolding compare_int strcmp
compare none none = pos 0
compare none (int b) = negsuc 0
compare none (string b) = negsuc 0
compare (int a) none = pos 1
compare (string a) none = pos 1
compare (int a) (int b) = compare_int a b
compare (string a) (string b) = strcmp a b
compare (int a) (string b) = negsuc 0
compare (string a) (int b) = pos 1
