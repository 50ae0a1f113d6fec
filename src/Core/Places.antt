-- ===== src/Core/Places.antt =====
-- The objects of a class by their places, and changes of one place: the moves and the assignments of
-- src/core/string.hpp and src/core/vector.hpp change such functions.
use cpp_db.Base.{
  Bool-cases, List, [], ap, arith, false, if◌then◌else◌, inl, inr, refl, true, ℕ, ◌==◌, ◌≡◌, ◌≢◌,
}

-- A change of one place.
abbrev pub update {ℓ} : {A : Type ℓ} → (ℕ → A) → ℕ → A → ℕ → A
update f at a i = if i == at then a else f i

-- What moving one object into another is to do to what they hold.
abbrev pub moved {ℓ} : {A : Type ℓ} → (ℕ → List A) → ℕ → ℕ → ℕ → List A
moved v this other = if this == other then v else update (update v this (v other)) other []

pub update-same {ℓ} : {A : Type ℓ} (f : ℕ → A) (i : ℕ) (a : A) → update f i a i ≡ a
update-same f i a = let e : (i == i) ≡ true = ground arith in rw e refl

pub update-other {ℓ} : {A : Type ℓ} (f : ℕ → A) (i j : ℕ) (a : A) → j ≢ i → update f i a j ≡ f j
update-other f i j a n = let e : (j == i) ≡ false = ground arith in rw e refl

-- The second change of a place is the one that stays.
pub update-update {ℓ} :
    {A : Type ℓ} (f : ℕ → A) (i : ℕ) (a b : A) (o : ℕ)
    → update (update f i a) i b o ≡ update f i b o
update-update f i a b o = elim (Bool-cases (o == i)) [ inl e ↦ rw e refl | inr e ↦ rw e refl ]

-- A place that gets what it has does not change.
pub update_self {ℓ} :
    {A : Type ℓ} (f : ℕ → A) (i j : ℕ) → (i == j) ≡ true → (o : ℕ) → f o ≡ update f i (f j) o
update_self f i j e o = elim (Bool-cases (o == i)) [
  | inl u ↦ let same : o ≡ j = ground arith in rw u (ap f same)
  | inr u ↦ rw u refl
]
