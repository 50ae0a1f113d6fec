-- ===== src/Parser/Interface/Blocks.antt =====
-- src/parser/parser_c.cpp: blocks by how often they are allocated, and steps that release some of them.
use cpp_db.Base.{
  ◌>>=◌, Bool-cases, List, Option, Returns, Returns_mono, [], arith, if◌then◌else◌, none, refl,
  some, suc, ℕ, ◌+◌, ◌==◌, ◌∷◌, ◌≡◌, inl, inr, ◌++◌,
}
use cpp_db.Parser.Interface.{release}

-- How often an address is allocated.
unfoldable pub count : ℕ → List ℕ → ℕ
count a [] = 0
count a (b ∷ bs) = let n = count a bs in if a == b then suc n else n

-- The same blocks, in any order.
abbrev pub SameBlocks : List ℕ → List ℕ → Type 0
SameBlocks xs ys = (a : ℕ) → count a xs ≡ count a ys

pub count-append : (a : ℕ) (xs ys : List ℕ) → count a (xs ++ ys) ≡ count a xs + count a ys
unfolding count
count-append a [] ys = omega arith
count-append a (x ∷ xs) ys = let h = count-append a xs ys in ground arith

-- The allocated blocks are some blocks and others.
abbrev pub Holds : List ℕ → List ℕ → List ℕ → Type 0
Holds live blocks others = (a : ℕ) → count a live ≡ count a blocks + count a others

-- A step that releases some blocks and no others, wherever they are allocated.
abbrev pub Frees : (List ℕ → Option (List ℕ)) → List ℕ → Type 0
Frees f blocks =
    (live others : List ℕ)
    → Holds live blocks others
    → Returns (f live) (λ left. SameBlocks left others)

release-Returns :
    (a : ℕ) (live : List ℕ)
    → (n : ℕ) → count a live ≡ suc n
    → Returns (release a live) (λ left. (b : ℕ) → count b live ≡ count b (a ∷ []) + count b left)
unfolding release count
release-Returns a [] n h = absurd (omega arith)
release-Returns a (b ∷ live) n h = elim (Bool-cases (a == b)) [
  | inl e ↦ rw (release, e) (λ c. ground arith)
  | inr e ↦
      (elim (release a live)
          as (λ o.
            release a live ≡ o
            → Returns o (λ left. (c : ℕ) → count c live ≡ count c (a ∷ []) + count c left)
            → Returns (release a (b ∷ live))
                (λ left. (c : ℕ) → count c (b ∷ live) ≡ count c (a ∷ []) + count c left)) [
                  | none ↦ λ u k. absurd k
                  | some left ↦ λ u k. rw (release, e, u) (λ c. let l = k c in ground arith)
                ])
        refl (release-Returns a live n (ground arith))
]

pub Frees-release : (a : ℕ) → Frees (release a) (a ∷ [])
unfolding count
Frees-release a live others h =
    Returns_mono (release a live) _ _
      (release-Returns a live (count a others) (let k = h a in ground arith))
      (λ left k b. let l = k b in let m = h b in omega arith)

pub Frees-skip : Frees (λ live. some live) []
unfolding count
Frees-skip live others h = λ a. let k = h a in omega arith

pub Frees-bind :
    (f g : List ℕ → Option (List ℕ)) (xs ys : List ℕ)
    → Frees f xs
    → Frees g ys
    → Frees (λ live. f live >>= g) (xs ++ ys)
Frees-bind f g xs ys hf hg live others h =
    (elim (f live)
        as (λ o.
          Returns o (λ left. SameBlocks left (ys ++ others))
          → Returns (o >>= g) (λ left. SameBlocks left others)) [
            | none ↦ λ k. absurd k
            | some left ↦
                λ k. hg left others (λ a. let l = k a in omega (arith, count-append a ys others))
          ])
      (hf live (ys ++ others)
        (λ a. let l = h a in omega (arith, count-append a xs ys, count-append a ys others)))
