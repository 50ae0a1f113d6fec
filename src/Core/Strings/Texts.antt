-- ===== src/Core/Strings/Texts.antt =====
-- src/core/string.hpp: the objects hold texts, each in a block of its own.
use std.Path.{fun_ext}
use cpp_db.Core.Places.{update, update-same, update-other}
use cpp_db.Base.{
  length-append, Bool-cases, Bytes, Returns, [], ap, arith, inl, inr, length, none, refl, some,
  subst, suc, sym, zero, ℕ, ◌+◌, ◌++◌, ◌<◌, ◌==◌, ◌∙◌, ◌∷◌, ◌≡◌, ◌≢◌, ◌≤◌, ◌⊎◌, false, true,
}
use cpp_db.Core.Strings.{
  Memory, StringObject, clone, construct_bytes, construct_copy, construct_empty, destroy_string,
  null_string, read_bytes,
}

-- An object holds a text: the null pointer no bytes, and a block the bytes and a NUL.
pub record HasBlock (m : Memory) (s : StringObject) (xs : Bytes) (a : ℕ) : Type 0 where
  pub points : s.buffer ≡ some a
  pub holds : m.blocks a ≡ some (xs ++ 0 ∷ [])
  pub known : a < m.next

pub record IsText (m : Memory) (s : StringObject) (xs : Bytes) : Type 0 where
  pub counted : s.len ≡ length xs
  pub stored : ((s.buffer ≡ none) × (xs ≡ [])) ⊎ ((a : ℕ) × HasBlock m s xs a)

-- The objects hold the texts of a function from their addresses, and no two share a block.
pub record Models (m : Memory) (v : ℕ → Bytes) : Type 0 where
  pub texts : (o : ℕ) → IsText m (m.objects o) (v o)
  pub apart : (o p a : ℕ) → (m.objects o).buffer ≡ some a → (m.objects p).buffer ≡ some a → o ≡ p

-- The blocks of a memory are in another, apart from one.
abbrev Keeps : Memory → Memory → ℕ → Type 0
Keeps m m' hole = (m.next ≤ m'.next) × ((a : ℕ) → a < m.next → a ≢ hole → m'.blocks a ≡ m.blocks a)

IsText-Keeps :
    (m m' : Memory) (hole : ℕ) (s : StringObject) (xs : Bytes)
    → Keeps m m' hole
    → s.buffer ≢ some hole
    → IsText m s xs
    → IsText m' s xs
IsText-Keeps m m' hole s xs (le, k) n t = record {
  counted = t.counted;
  stored = elim t.stored [
    | inl e ↦ inl e
    | inr (a, h) ↦ inr (
      a,
      record {
        points = h.points;
        holds = k a h.known (λ e. n (h.points ∙ ap some e)) ∙ h.holds;
        known = let q = h.known in omega arith;
      },
    )
  ];
}

-- A new object in place of one, with a block that no other object has.
pub Models-update :
    (m m' : Memory) (v : ℕ → Bytes) (this hole : ℕ) (s : StringObject) (xs : Bytes)
    → Models m v
    → Keeps m m' hole
    → ((o : ℕ) → o ≢ this → (m.objects o).buffer ≢ some hole)
    → ((o : ℕ) → m'.objects o ≡ update m.objects this s o)
    → IsText m' s xs
    → ((o a : ℕ) → o ≢ this → (m.objects o).buffer ≡ some a → s.buffer ≢ some a)
    → Models m' (update v this xs)
Models-update m m' v this hole s xs h k free same t new = record {
  texts = λ o. elim (Bool-cases (o == this)) [
    | inl e ↦ rw (same o, e) t
    | inr e ↦
        rw (same o, e)
          (IsText-Keeps m m' hole (m.objects o) (v o) k (free o (ground arith)) (h.texts o))
  ];
  apart = λ o p a eo ep. elim (Bool-cases (o == this)) [
    | inl e ↦ elim (Bool-cases (p == this)) [
      | inl f ↦ ground arith
      | inr f ↦ absurd (new p a (ground arith) (sym (there p f) ∙ ep) (sym (here o e) ∙ eo))
    ]
    | inr e ↦ elim (Bool-cases (p == this)) [
      | inl f ↦ absurd (new o a (ground arith) (sym (there o e) ∙ eo) (sym (here p f) ∙ ep))
      | inr f ↦ h.apart o p a (sym (there o e) ∙ eo) (sym (there p f) ∙ ep)
    ]
  ];
}
  where
    here : (o : ℕ) → (o == this) ≡ true → (m'.objects o).buffer ≡ s.buffer
    here o e = let q : m'.objects o ≡ s = same o ∙ rw e refl in ap (λ x. x.buffer) q

    there : (o : ℕ) → (o == this) ≡ false → (m'.objects o).buffer ≡ (m.objects o).buffer
    there o e = let q : m'.objects o ≡ m.objects o = same o ∙ rw e refl in ap (λ x. x.buffer) q

-- Texts that are the same everywhere.
pub Models-same : (m : Memory) (v w : ℕ → Bytes) → Models m v → ((o : ℕ) → v o ≡ w o) → Models m w
Models-same m v w h e = subst (Models m) (fun_ext e) h

-- The block behind a pointer.
pub block-HasBlock :
    (m : Memory) (s : StringObject) (xs : Bytes) (a : ℕ)
    → IsText m s xs
    → s.buffer ≡ some a
    → HasBlock m s xs a
block-HasBlock m s xs a t e = elim t.stored [
  | inl (n, _) ↦ cc
  | inr (b, h) ↦ let same : b ≡ a = cc in subst (HasBlock m s xs) same h
]

buffer_known :
    (m : Memory) (v : ℕ → Bytes) (o a : ℕ) → Models m v → (m.objects o).buffer ≡ some a → a < m.next
buffer_known m v o a h e = (block-HasBlock m (m.objects o) (v o) a (h.texts o) e).known

-- The null pointer in place of an object.
pub construct_empty-Models :
    (m : Memory) (v : ℕ → Bytes) (this : ℕ)
    → Models m v
    → Models (construct_empty this m) (update v this [])
construct_empty-Models m v this h =
    Models-update m (construct_empty this m) v this m.next null_string [] h
      (omega arith, λ a lt n. refl) (λ o n e. let k = buffer_known m v o m.next h e in omega arith)
      (λ o. refl) (record { counted = refl; stored = inl (refl, refl) }) (λ o a n e f. cc)

-- A new block in place of an object.
pub construct_bytes-Models :
    (m : Memory) (v : ℕ → Bytes) (this : ℕ) (text : Bytes)
    → Models m v
    → Models (construct_bytes this text m) (update v this text)
unfolding construct_bytes
construct_bytes-Models m v this text h =
    Models-update m (construct_bytes this text m) v this m.next _ text h
      (omega arith, λ a lt n. update-other m.blocks m.next a (some (text ++ 0 ∷ [])) n)
      (λ o n e. let k = buffer_known m v o m.next h e in omega arith) (λ o. refl)
      (record {
        counted = refl;
        stored = inr (
          m.next,
          record {
            points = refl;
            holds = update-same m.blocks m.next (some (text ++ 0 ∷ []));
            known = omega arith;
          },
        );
      })
      (λ o a n e f. let k = buffer_known m v o a h e in let g : m.next ≡ a = cc in omega arith)

-- A whole block is read.
read_all : (n : ℕ) (text : Bytes) → n ≡ length text → read_bytes n text ≡ some text
unfolding read_bytes
read_all zero [] e = refl
read_all zero (c ∷ cs) e = absurd (omega arith)
read_all (suc n) [] e = absurd (omega arith)
read_all (suc n) (c ∷ cs) e = let h = read_all n cs (omega arith) in rw (read_bytes, h) refl

-- A copy of an object holds its text, in a block of its own.
pub construct_copy-Models :
    (m : Memory) (v : ℕ → Bytes) (this : ℕ) (other : StringObject) (xs : Bytes)
    → Models m v
    → IsText m other xs
    → Returns (construct_copy this other m) (λ m'. Models m' (update v this xs))
unfolding construct_copy clone
construct_copy-Models m v this other xs h t = elim t.stored [
  | inl (e, n) ↦
      rw (construct_copy, e)
        (Models-update m
          (record m { objects = update m.objects this (record { buffer = none; len = other.len }) })
          v this m.next (record { buffer = none; len = other.len }) xs h
          (omega arith, λ a lt n. refl)
          (λ o n e. let k = buffer_known m v o m.next h e in omega arith) (λ o. refl)
          (record { counted = t.counted; stored = inl (refl, n) }) (λ o a n e f. cc))
  | inr (a, b) ↦
      let text : Bytes = xs ++ 0 ∷ [] in
      let read =
        read_all (other.len + 1) text (omega (arith, t.counted, length-append xs (0 ∷ []))) in
      rw (construct_copy, b.points, b.holds, clone, read)
        (Models-update m
          (record {
            objects = update m.objects this (record { buffer = some m.next; len = other.len });
            blocks = update m.blocks m.next (some text);
            next = suc m.next;
          })
          v this m.next (record { buffer = some m.next; len = other.len }) xs h
          (omega arith, λ a lt n. update-other m.blocks m.next a (some text) n)
          (λ o n e. let k = buffer_known m v o m.next h e in omega arith) (λ o. refl)
          (record {
            counted = t.counted;
            stored = inr (
              m.next,
              record {
                points = refl;
                holds = update-same m.blocks m.next (some text);
                known = omega arith;
              },
            );
          })
          (λ o a n e f. let k = buffer_known m v o a h e in let g : m.next ≡ a = cc in omega arith))
]

-- The destructor releases the block of the object, and no other object loses its text.
pub destroy_string-Models :
    (m : Memory) (v : ℕ → Bytes) (this : ℕ)
    → Models m v
    → Returns (destroy_string this m) (λ m'. Models m' (update v this []))
unfolding destroy_string
destroy_string-Models m v this h = elim (h.texts this).stored [
  | inl (e, n) ↦ rw (destroy_string, e) (construct_empty-Models m v this h)
  | inr (a, b) ↦
      rw (destroy_string, b.points, b.holds)
        (Models-update m (construct_empty this (record m { blocks = update m.blocks a none })) v
          this a null_string [] h (omega arith, λ c lt n. update-other m.blocks a c none n)
          (λ o n e. n (h.apart o this a e b.points)) (λ o. refl)
          (record { counted = refl; stored = inl (refl, refl) }) (λ o c n e f. cc))
]
