-- ===== src/Execution/Where/Clauses.antt =====
-- The WHERE clause of a statement (src/execution/executor.cpp): its column, and the rows that it
-- selects.
use cpp_db.Base.{
  ℕ, ◌<◌, ◌≡◌, refl, Bool, true, false, [], ◌∷◌, none, some, ℤ, pos, negsuc, ◌<ℤ◌, ◌==◌, Bytes,
  codes, str_eq_iff, arith, get_elem?, ◌⊎◌, inl, inr, ◌↔◌, Bool-cases, Option-cases, subst,
}
use cpp_db.Storage.Value.{Value, Row, strcmp, compare_int, compare}
use cpp_db.Storage.Table.{Table, find_column}
use cpp_db.Parser.Ast.{WhereClause}
use cpp_db.Execution.State.{done, fail, require_column, where_column, column_missing}
use cpp_db.Execution.Where.{parse_where_value, apply_op, matches_where}
use cpp_db.Storage.Value.Order.{compare-eq_iff, compare-opposite}

-- The column number that a statement's clause stands for: -1 without a clause.
abbrev pub Clause : Table → Bool → WhereClause → ℤ → Type 0
Clause t false w c = c ≡ negsuc 0
Clause t true w c = (n : ℕ) × (c ≡ pos n) × (find_column t w.column ≡ pos n)

pub where_column_lem :
    (t : Table) (name : Bytes) (has_where : Bool) (w : WhereClause) (c : ℤ)
    → Clause t has_where w c
    → where_column t name has_where w ≡ done c
unfolding where_column
where_column_lem t name false w c e = rw e
where_column_lem t name true w c (n, e, f) = rw (where_column, require_column, f, e)

where_column_found :
    (t : Table) (name : Bytes) (w : WhereClause) (z : ℤ)
    → find_column t w.column ≡ z
    → ((msg : Bytes) × (where_column t name true w ≡ fail msg))
      ⊎ ((c : ℤ) × (where_column t name true w ≡ done c) × Clause t true w c)
unfolding where_column
where_column_found t name w (pos n) f =
    inr (pos n, rw (where_column, require_column, f), (n, refl, f))
where_column_found t name w (negsuc n) f =
    inl (column_missing w.column name, rw (where_column, require_column, f))

-- A clause that names no column of the table is refused.
pub where_column-cases :
    (t : Table) (name : Bytes) (has_where : Bool) (w : WhereClause)
    → ((msg : Bytes) × (where_column t name has_where w ≡ fail msg))
      ⊎ ((c : ℤ) × (where_column t name has_where w ≡ done c) × Clause t has_where w c)
where_column-cases t name false w = unfold where_column in inr (negsuc 0, refl, refl)
where_column-cases t name true w = where_column_found t name w (find_column t w.column) refl

-- The order of strings: by the first byte that differs, a prefix before what it begins.
abbrev pub StringLt : Bytes → Bytes → Type 0
StringLt [] [] = ⊥
StringLt [] (y ∷ ys) = Unit
StringLt (x ∷ xs) [] = ⊥
StringLt (x ∷ xs) (y ∷ ys) = (x < y) ⊎ ((x ≡ y) × StringLt xs ys)

-- The order of values: no value before the ints, the ints before the strings.
abbrev pub ValueLt : Value → Value → Type 0
ValueLt (Value.int a) (Value.int b) = a <ℤ b
ValueLt (Value.string a) (Value.string b) = StringLt a b
ValueLt Value.none (Value.int b) = Unit
ValueLt Value.none (Value.string b) = Unit
ValueLt (Value.int a) (Value.string b) = Unit
ValueLt _ _ = ⊥

-- What an operator says of a cell and the constant. Another operator holds of nothing.
abbrev pub Satisfies : Bytes → Value → Value → Type 0
Satisfies op a b =
    ((op ≡ codes "=") × (a ≡ b))
    ⊎ (((op ≡ codes "<") × ValueLt a b) ⊎ ((op ≡ codes ">") × ValueLt b a))

strcmp_sound : (a b : Bytes) → strcmp a b ≡ negsuc 0 → StringLt a b
unfolding strcmp
strcmp_sound [] [] h = cc
strcmp_sound [] (y ∷ ys) h = tt
strcmp_sound (x ∷ xs) [] h = cc
strcmp_sound (x ∷ xs) (y ∷ ys) h = elim (Bool-cases (x == y)) [
  | inl e ↦ inr (ground arith, strcmp_sound xs ys (ground arith))
  | inr e ↦ inl (ground arith)
]

strcmp_complete : (a b : Bytes) → StringLt a b → strcmp a b ≡ negsuc 0
unfolding strcmp
strcmp_complete [] [] h = absurd h
strcmp_complete [] (y ∷ ys) h = refl
strcmp_complete (x ∷ xs) [] h = absurd h
strcmp_complete (x ∷ xs) (y ∷ ys) (inl lt) = ground arith
strcmp_complete (x ∷ xs) (y ∷ ys) (inr (e, lt)) = ground (arith, strcmp_complete xs ys lt)

compare_less_sound : (a b : Value) → compare a b ≡ negsuc 0 → ValueLt a b
unfolding compare
compare_less_sound (Value.int a) (Value.int b) h = unfold compare_int in ground arith
compare_less_sound (Value.string a) (Value.string b) h = strcmp_sound a b h
compare_less_sound (Value.int a) Value.none h = cc
compare_less_sound (Value.int a) (Value.string b) h = tt
compare_less_sound (Value.string a) Value.none h = cc
compare_less_sound (Value.string a) (Value.int b) h = cc
compare_less_sound Value.none Value.none h = cc
compare_less_sound Value.none (Value.int b) h = tt
compare_less_sound Value.none (Value.string b) h = tt

compare_less_complete : (a b : Value) → ValueLt a b → compare a b ≡ negsuc 0
unfolding compare
compare_less_complete (Value.int a) (Value.int b) h = unfold compare_int in ground arith
compare_less_complete (Value.string a) (Value.string b) h = strcmp_complete a b h
compare_less_complete (Value.int a) Value.none h = absurd h
compare_less_complete (Value.int a) (Value.string b) h = refl
compare_less_complete (Value.string a) Value.none h = absurd h
compare_less_complete (Value.string a) (Value.int b) h = absurd h
compare_less_complete Value.none Value.none h = absurd h
compare_less_complete Value.none (Value.int b) h = refl
compare_less_complete Value.none (Value.string b) h = refl

-- `compare` is negative exactly for a smaller first value.
pub compare-less_iff : (a b : Value) → (compare a b ≡ negsuc 0) ↔ ValueLt a b
compare-less_iff a b = (compare_less_sound a b, compare_less_complete a b)

-- `compare` is positive exactly for a greater first value.
pub compare-greater_iff : (a b : Value) → (compare a b ≡ pos 1) ↔ ValueLt b a
compare-greater_iff a b = (
  λ h. compare_less_sound b a (rw (compare-opposite a b, h)),
  λ h. rw (compare-opposite b a, compare_less_complete b a h),
)

abbrev Signed : ℤ → Type 0
Signed z = (z ≡ negsuc 0) ⊎ ((z ≡ pos 0) ⊎ (z ≡ pos 1))

strcmp-Signed : (a b : Bytes) → Signed (strcmp a b)
unfolding strcmp
strcmp-Signed [] [] = inr (inl refl)
strcmp-Signed [] (y ∷ ys) = inl refl
strcmp-Signed (x ∷ xs) [] = inr (inr refl)
strcmp-Signed (x ∷ xs) (y ∷ ys) = ground (arith, strcmp-Signed xs ys)

compare-Signed : (a b : Value) → Signed (compare a b)
unfolding compare
compare-Signed (Value.int a) (Value.int b) = unfold compare_int in ground arith
compare-Signed (Value.string a) (Value.string b) = strcmp-Signed a b
compare-Signed (Value.int a) Value.none = inr (inr refl)
compare-Signed (Value.int a) (Value.string b) = inl refl
compare-Signed (Value.string a) Value.none = inr (inr refl)
compare-Signed (Value.string a) (Value.int b) = inr (inr refl)
compare-Signed Value.none Value.none = inr (inl refl)
compare-Signed Value.none (Value.int b) = inl refl
compare-Signed Value.none (Value.string b) = inl refl

-- The three operators on the sign of a comparison.
apply_op_iff :
    (op : Bytes) (z : ℤ)
    → Signed z
    → (apply_op op z ≡ true) ↔ (
        ((op ≡ codes "=") × (z ≡ pos 0))
        ⊎ (((op ≡ codes "<") × (z ≡ negsuc 0)) ⊎ ((op ≡ codes ">") × (z ≡ pos 1))))
unfolding apply_op
apply_op_iff op z sg = (
  λ h.
      ground (
        arith,
        str_eq_iff op (codes "="),
        str_eq_iff op (codes "<"),
        str_eq_iff op (codes ">"),
        sg,
      ),
  elim [ inl (e, f) ↦ rw (e, f) | inr (inl (e, f)) ↦ rw (e, f) | inr (inr (e, f)) ↦ rw (e, f) ],
)

apply_op-Satisfies :
    (op : Bytes) (a b : Value) → (apply_op op (compare a b) ≡ true) ↔ Satisfies op a b
apply_op-Satisfies op a b = (
  λ h. elim ((apply_op_iff op (compare a b) (compare-Signed a b)).0 h) [
    | inl (e, f) ↦ inl (e, (compare-eq_iff a b).0 f)
    | inr (inl (e, f)) ↦ inr (inl (e, (compare-less_iff a b).0 f))
    | inr (inr (e, f)) ↦ inr (inr (e, (compare-greater_iff a b).0 f))
  ],
  λ h. (apply_op_iff op (compare a b) (compare-Signed a b)).1 (elim h [
    | inl (e, f) ↦ inl (e, (compare-eq_iff a b).1 f)
    | inr (inl (e, f)) ↦ inr (inl (e, (compare-less_iff a b).1 f))
    | inr (inr (e, f)) ↦ inr (inr (e, (compare-greater_iff a b).1 f))
  ]),
)

-- A row matches a WHERE clause exactly if it has a cell in the column and the cell stands in the
-- relation of the operator to the constant: equal for `=`, before it for `<`, after it for `>`, in the
-- order none, ints by value, strings byte by byte.
pub matches_where_iff :
    (row : Row) (c : ℕ) (w : WhereClause)
    → (matches_where row (pos c) w ≡ true)
      ↔ ((cell : Value) × (get_elem? row c ≡ some cell) × Satisfies w.op cell (parse_where_value w))
unfolding matches_where
matches_where_iff row c w = elim (Option-cases (get_elem? row c)) [
  | inl e ↦ (λ h. absurd (matches_none e h), λ (cell, g, s). cc)
  | inr (cell, e) ↦ (
    λ h. (cell, e, (apply_op-Satisfies w.op cell (parse_where_value w)).0 (matches_some cell e h)),
    λ (cell', g, s).
        let same : cell' ≡ cell = cc in
        rw (matches_where, e)
          ((apply_op-Satisfies w.op cell (parse_where_value w)).1
            (subst (λ v. Satisfies w.op v (parse_where_value w)) same s)),
  )
]
  where
    matches_none : get_elem? row c ≡ none → matches_where row (pos c) w ≡ true → ⊥
    matches_none e h = ground arith

    matches_some :
        (cell : Value)
        → get_elem? row c ≡ some cell
        → matches_where row (pos c) w ≡ true
        → apply_op w.op (compare cell (parse_where_value w)) ≡ true
    matches_some cell e h = ground arith
