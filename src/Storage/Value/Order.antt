-- ===== src/Storage/Value/Order.antt =====
-- `Value::compare` is a total order.
use cpp_db.Base.{zero, suc, ◌≡◌, refl, ap, [], ◌∷◌, ℤ, pos, negsuc, arith, Bytes, ◌↔◌, eq_of_parts}
use cpp_db.Storage.Value.{Value, strcmp, compare_int, compare}

-- The result with the arguments exchanged.
abbrev pub opposite : ℤ → ℤ
opposite (pos zero) = pos 0
opposite (pos (suc n)) = negsuc n
opposite (negsuc n) = pos (suc n)

strcmp-opposite : (a b : Bytes) → strcmp b a ≡ opposite (strcmp a b)
unfolding strcmp
strcmp-opposite [] [] = refl
strcmp-opposite [] (y ∷ ys) = refl
strcmp-opposite (x ∷ xs) [] = refl
strcmp-opposite (x ∷ xs) (y ∷ ys) = ground (arith, strcmp-opposite xs ys)

compare_int-opposite : (a b : ℤ) → compare_int b a ≡ opposite (compare_int a b)
unfolding compare_int
compare_int-opposite a b = ground arith

-- Exchanging the arguments of `compare` exchanges "less" and "greater".
pub compare-opposite : (a b : Value) → compare b a ≡ opposite (compare a b)
unfolding compare
compare-opposite (Value.int a) (Value.int b) = compare_int-opposite a b
compare-opposite (Value.string a) (Value.string b) = strcmp-opposite a b
compare-opposite Value.none Value.none = refl
compare-opposite _ _ = refl

strcmp_sound : (a b : Bytes) → strcmp a b ≡ pos 0 → a ≡ b
unfolding strcmp
strcmp_sound [] [] h = refl
strcmp_sound [] (y ∷ ys) h = cc
strcmp_sound (x ∷ xs) [] h = cc
strcmp_sound (x ∷ xs) (y ∷ ys) h = ground (arith, strcmp_sound xs ys)

strcmp_refl : (a : Bytes) → strcmp a a ≡ pos 0
unfolding strcmp
strcmp_refl [] = refl
strcmp_refl (x ∷ xs) = ground (arith, strcmp_refl xs)

compare_sound : (a b : Value) → compare a b ≡ pos 0 → a ≡ b
unfolding compare
compare_sound (Value.int a) (Value.int b) h =
    unfold compare_int in ap Value.int (eq_of_parts a b (ground arith))
compare_sound (Value.string a) (Value.string b) h = ap Value.string (strcmp_sound a b h)
compare_sound Value.none Value.none h = refl
compare_sound _ _ h = cc

compare_refl : (a : Value) → compare a a ≡ pos 0
unfolding compare
compare_refl (Value.int a) = unfold compare_int in ground arith
compare_refl (Value.string a) = strcmp_refl a
compare_refl Value.none = refl

-- `compare` is zero exactly for equal values.
pub compare-eq_iff : (a b : Value) → (compare a b ≡ pos 0) ↔ (a ≡ b)
compare-eq_iff a b = (compare_sound a b, λ e. rw e (compare_refl b))

strcmp_trans :
    (a b c : Bytes) → strcmp a b ≡ negsuc 0 → strcmp b c ≡ negsuc 0 → strcmp a c ≡ negsuc 0
unfolding strcmp
strcmp_trans [] [] c h k = cc
strcmp_trans [] (y ∷ ys) [] h k = cc
strcmp_trans [] (y ∷ ys) (z ∷ zs) h k = refl
strcmp_trans (x ∷ xs) [] c h k = cc
strcmp_trans (x ∷ xs) (y ∷ ys) [] h k = cc
strcmp_trans (x ∷ xs) (y ∷ ys) (z ∷ zs) h k = ground (arith, strcmp_trans xs ys zs)

compare_int_trans :
    (a b c : ℤ)
    → compare_int a b ≡ negsuc 0
    → compare_int b c ≡ negsuc 0
    → compare_int a c ≡ negsuc 0
unfolding compare_int
compare_int_trans a b c h k = ground arith

-- "Less" is transitive, across the types too: no value, then the ints, then the strings.
pub compare_trans :
    (a b c : Value) → compare a b ≡ negsuc 0 → compare b c ≡ negsuc 0 → compare a c ≡ negsuc 0
unfolding compare
compare_trans (Value.int a) (Value.int b) (Value.int c) h k = compare_int_trans a b c h k
compare_trans (Value.string a) (Value.string b) (Value.string c) h k = strcmp_trans a b c h k
compare_trans Value.none Value.none Value.none h k = cc
compare_trans _ _ _ h k = ground arith
