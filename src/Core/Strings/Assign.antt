-- ===== src/Core/Strings/Assign.antt =====
-- src/core/string.hpp: the assignments set one text, whatever objects they are given.
use cpp_db.Core.Places.{moved, update, update-other, update-update, update_self}
use cpp_db.Base.{
  Bool-cases, Bytes, Option, Returns, Returns_mono, [], arith, inl, inr, none, refl, some, subst,
  sym, ℕ, ◌==◌, ◌≡◌, ◌≢◌, false, if◌then◌else◌, ap, ◌∙◌,
}
use cpp_db.Core.Strings.{
  Memory, StringObject, assign_copy, assign_move, assign_text, construct, construct_copy,
  construct_move, destroy_string, null_string,
}
use cpp_db.Core.Strings.Texts.{
  IsText, Models, Models-same, construct_bytes-Models, construct_copy-Models,
  construct_empty-Models, destroy_string-Models,
}

-- The text after the destructor has run on another object.
other-IsText :
    (m : Memory) (v : ℕ → Bytes) (this other : ℕ)
    → (this == other) ≡ false
    → Models m (update v this [])
    → IsText m (m.objects other) (v other)
other-IsText m v this other e h =
    subst (IsText m (m.objects other)) (update-other v this other [] (ground arith)) (h.texts other)

-- Copying a string into another sets its text and no other one; a string that is assigned to itself keeps
-- its text.
pub assign_copy-Models :
    (m : Memory) (v : ℕ → Bytes) (this other : ℕ)
    → Models m v
    → Returns (assign_copy this other m) (λ m'. Models m' (update v this (v other)))
unfolding assign_copy
assign_copy-Models m v this other h = elim (Bool-cases (this == other)) [
  | inl e ↦ rw (assign_copy, e) (Models-same m v _ h (update_self v this other e))
  | inr e ↦
      (elim (destroy_string this m)
          as (λ o.
            destroy_string this m ≡ o
            → Returns o (λ m1. Models m1 (update v this []))
            → Returns (assign_copy this other m) (λ m'. Models m' (update v this (v other)))) [
              | none ↦ λ u k. absurd k
              | some m1 ↦ λ u k.
                  rw (assign_copy, e, u)
                    (Returns_mono (construct_copy this (m1.objects other) m1) _ _
                      (construct_copy-Models m1 (update v this []) this (m1.objects other) (v other)
                        k (other-IsText m1 v this other e k))
                      (λ m' g. Models-same m' _ _ g (update-update v this [] (v other))))
            ])
        refl (destroy_string-Models m v this h)
]

-- Assigning the text behind a pointer sets the text of the object, to the empty one for the null pointer.
abbrev pub text_of : Option Bytes → Bytes
text_of none = []
text_of (some text) = text

construct-Models :
    (m : Memory) (v : ℕ → Bytes) (this : ℕ) (text : Option Bytes)
    → Models m v
    → Models (construct this text m) (update v this (text_of text))
unfolding construct
construct-Models m v this none h = construct_empty-Models m v this h
construct-Models m v this (some text) h = construct_bytes-Models m v this text h

pub assign_text-Models :
    (m : Memory) (v : ℕ → Bytes) (this : ℕ) (text : Option Bytes)
    → Models m v
    → Returns (assign_text this text m) (λ m'. Models m' (update v this (text_of text)))
unfolding assign_text
assign_text-Models m v this text h =
    (elim (destroy_string this m)
        as (λ o.
          destroy_string this m ≡ o
          → Returns o (λ m1. Models m1 (update v this []))
          → Returns (assign_text this text m) (λ m'. Models m' (update v this (text_of text)))) [
            | none ↦ λ u k. absurd k
            | some m1 ↦ λ u k.
                rw (assign_text, u)
                  (Models-same (construct this text m1) _ _
                    (construct-Models m1 (update v this []) this text k)
                    (update-update v this [] (text_of text)))
          ])
      refl (destroy_string-Models m v this h)

construct_move-Models :
    (m : Memory) (v : ℕ → Bytes) (this other : ℕ)
    → Models m v
    → this ≢ other
    → Models (construct_move this other m) (update (update v this (v other)) other [])
construct_move-Models m v this other h n = record {
  texts = λ o. elim (Bool-cases (o == other)) [
    | inl e ↦ rw e (record { counted = refl; stored = inl (refl, refl) })
    | inr e ↦ elim (Bool-cases (o == this)) [
      | inl f ↦ rw (e, f) (kept (m.objects other) (v other) (h.texts other))
      | inr f ↦ rw (e, f) (kept (m.objects o) (v o) (h.texts o))
    ]
  ];
  apart = λ o p a eo ep.
      let (elsewhere, so) = from o a eo in
      let (np, sp) = from p a ep in
      let same = h.apart (source o) (source p) a so sp in ground arith;
}
  where
    kept :
        (s : StringObject) (xs : Bytes) → IsText m s xs → IsText (construct_move this other m) s xs
    kept s xs t = record {
      counted = t.counted;
      stored = elim t.stored [
        | inl e ↦ inl e
        | inr (a, b) ↦ inr (a, record { points = b.points; holds = b.holds; known = b.known })
      ];
    }

    source : ℕ → ℕ
    source o = if o == this then other else o

    from :
        (o a : ℕ)
        → ((construct_move this other m).objects o).buffer ≡ some a
        → (o ≢ other) × ((m.objects (source o)).buffer ≡ some a)
    from o a e = elim (Bool-cases (o == other)) [
      | inl f ↦
          let q : (construct_move this other m).objects o ≡ null_string = rw f refl in
          let z : null_string.buffer ≡ some a = sym (ap (λ s. s.buffer) q) ∙ e in cc
      | inr f ↦ elim (Bool-cases (o == this)) [
        | inl g ↦
            let q : (construct_move this other m).objects o ≡ m.objects other = rw (f, g) refl in
            (ground arith, rw g (sym (ap (λ s. s.buffer) q) ∙ e))
        | inr g ↦
            let q : (construct_move this other m).objects o ≡ m.objects o = rw (f, g) refl in
            (ground arith, rw g (sym (ap (λ s. s.buffer) q) ∙ e))
      ]
    ]

-- Moving a string into another gives it the text and leaves the other one empty, and no third one changes;
-- a string that is moved into itself keeps its text.
pub assign_move-Models :
    (m : Memory) (v : ℕ → Bytes) (this other : ℕ)
    → Models m v
    → Returns (assign_move this other m) (λ m'. Models m' (moved v this other))
unfolding assign_move
assign_move-Models m v this other h = elim (Bool-cases (this == other)) [
  | inl e ↦ rw (assign_move, e) h
  | inr e ↦
      (elim (destroy_string this m)
          as (λ o.
            destroy_string this m ≡ o
            → Returns o (λ m1. Models m1 (update v this []))
            → Returns (assign_move this other m) (λ m'. Models m' (moved v this other))) [
              | none ↦ λ u k. absurd k
              | some m1 ↦ λ u k.
                  rw (assign_move, e, u)
                    (Models-same (construct_move this other m1) _ _
                      (construct_move-Models m1 (update v this []) this other k (ground arith))
                      (λ o. elim (Bool-cases (o == other)) [
                        | inl f ↦ rw f refl
                        | inr f ↦ rw f (
                            ap (λ xs. update (update v this []) this xs o)
                              (update-other v this other [] (ground arith))
                            ∙ update-update v this [] (v other) o)
                      ]))
            ])
        refl (destroy_string-Models m v this h)
]
