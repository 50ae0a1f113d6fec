-- ===== src/Core/Strings/Compare.antt =====
-- src/core/string.hpp: `==` compares the texts.
use cpp_db.Base.{
  ◌∙◌, ap, Bool-cases, Bytes, Option, [], arith, false, inl, inr, length, none, refl, some, str_eq,
  suc, zero, ℕ, ◌++◌, ◌==◌, ◌∷◌, ◌≡◌, ◌≢◌,
}
use cpp_db.Core.Strings.{equals_text, Memory, equals, memcmp}
use cpp_db.Core.Strings.Texts.{Models}
use cpp_db.Core.Strings.Assign.{text_of}

memcmp-str_eq :
    (n : ℕ) (xs ys rest more : Bytes)
    → n ≡ length xs
    → n ≡ length ys
    → memcmp n (xs ++ rest) (ys ++ more) ≡ some (str_eq xs ys)
unfolding memcmp str_eq
memcmp-str_eq zero [] [] rest more e f = refl
memcmp-str_eq zero (x ∷ xs) ys rest more e f = absurd (omega arith)
memcmp-str_eq zero [] (y ∷ ys) rest more e f = absurd (omega arith)
memcmp-str_eq (suc n) [] ys rest more e f = absurd (omega arith)
memcmp-str_eq (suc n) (x ∷ xs) [] rest more e f = absurd (omega arith)
memcmp-str_eq (suc n) (x ∷ xs) (y ∷ ys) rest more e f =
    let h = memcmp-str_eq n xs ys rest more (omega arith) (omega arith) in
    elim (Bool-cases (x == y)) [
      | inl g ↦ rw (memcmp, str_eq, g) h
      | inr g ↦ rw (memcmp, str_eq, g) refl
    ]

str_eq-length : (xs ys : Bytes) → length xs ≢ length ys → str_eq xs ys ≡ false
unfolding str_eq
str_eq-length [] [] n = absurd (n refl)
str_eq-length [] (y ∷ ys) n = refl
str_eq-length (x ∷ xs) [] n = refl
str_eq-length (x ∷ xs) (y ∷ ys) n =
    let h = str_eq-length xs ys (λ e. n (omega arith)) in ground arith

-- `==` compares the texts of the objects, without a read behind their blocks.
pub equals-str_eq :
    (m : Memory) (v : ℕ → Bytes) (this other : ℕ)
    → Models m v
    → equals this other m ≡ some (str_eq (v this) (v other))
unfolding equals
equals-str_eq m v this other h =
    let s = m.objects this in
    let t = m.objects other in
    let p = h.texts this in
    let q = h.texts other in
    elim (Bool-cases (s.len == t.len)) [
      | inr e ↦
          let n : length (v this) ≢ length (v other) = ground (arith, p.counted, q.counted) in
          rw (equals, e, str_eq-length (v this) (v other) n) refl
      | inl e ↦ elim (Bool-cases (s.len == 0)) [
        | inl f ↦
            rw (equals, e, f)
              (memcmp-str_eq 0 (v this) (v other) [] [] (ground (arith, p.counted))
                (ground (arith, p.counted, q.counted)))
        | inr f ↦ elim p.stored [
          | inl (_, k) ↦ absurd (ground (arith, p.counted, ap length k))
          | inr (a, x) ↦ elim q.stored [
            | inl (_, k) ↦ absurd (ground (arith, p.counted, q.counted, ap length k))
            | inr (b, y) ↦
                rw (equals, e, f, x.points, x.holds, y.points, y.holds)
                  (memcmp-str_eq s.len (v this) (v other) (0 ∷ []) (0 ∷ []) p.counted
                    (ground (arith, q.counted)))
          ]
        ]
      ]
    ]

str_eq_empty : (xs : Bytes) → (length xs == 0) ≡ str_eq xs []
unfolding str_eq
str_eq_empty [] = refl
str_eq_empty (x ∷ xs) = ground arith

-- The same against a text, or against the null pointer as an empty one.
pub equals_text-str_eq :
    (m : Memory) (v : ℕ → Bytes) (this : ℕ) (text : Option Bytes)
    → Models m v
    → equals_text this text m ≡ some (str_eq (v this) (text_of text))
unfolding equals_text
equals_text-str_eq m v this none h =
    ap some (ap (λ n. n == 0) (h.texts this).counted ∙ str_eq_empty (v this))
equals_text-str_eq m v this (some text) h =
    let s = m.objects this in
    let p = h.texts this in
    elim (Bool-cases (s.len == length text)) [
      | inr e ↦
          let n : length (v this) ≢ length text = ground (arith, p.counted) in
          rw (equals_text, e, str_eq-length (v this) text n) refl
      | inl e ↦ elim (Bool-cases (s.len == 0)) [
        | inl f ↦
            rw (equals_text, e, f)
              (memcmp-str_eq 0 (v this) text [] [] (ground (arith, p.counted)) (ground arith))
        | inr f ↦ elim p.stored [
          | inl (_, k) ↦ absurd (ground (arith, p.counted, ap length k))
          | inr (a, x) ↦
              rw (equals_text, e, f, x.points, x.holds)
                (memcmp-str_eq s.len (v this) text (0 ∷ []) (0 ∷ []) p.counted (ground arith))
        ]
      ]
    ]
