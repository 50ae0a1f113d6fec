-- ===== src/Execution/Select/Rows.antt =====
-- The rows of a SELECT result (src/execution/executor.cpp).
use cpp_db.Base.{
  ℕ, ◌<◌, ◌≡◌, refl, Bool, List, [], ◌∷◌, ◌++◌, length, get_or, All, keep, map, Bool-cases, inl,
  inr, get_elem?-get_or, ◌∙◌,
}
use mathlib.Core.List.{append-nil, append_assoc}
use cpp_db.Storage.Value.{Value, Row}
use cpp_db.Storage.Table.{Table, insert_row}
use cpp_db.Execution.State.{done}
use cpp_db.Execution.Select.{Target, all, column, project, select_loop}

-- The part of a row that is selected.
abbrev pub projected : Target → Row → Row
projected all row = row
projected (column c) row = get_or row c Value.none ∷ []

-- The target lies in a row of the width.
abbrev pub Fits : ℕ → Target → Type 0
Fits width all = Unit
Fits width (column c) = c < width

project_lem :
    (target : Target) (row : Row)
    → Fits (length row) target
    → project target row ≡ done (projected target row)
unfolding project
project_lem all row f = refl
project_lem (column c) row f = rw (get_elem?-get_or row c Value.none f)

-- On rows that are wide enough, the loop adds to the result exactly the rows that pass the test, in
-- their order, each cut to the target.
pub select_loop_lem :
    (test : Row → Bool) (target : Target) (width : ℕ) (rows : List Row) (result : Table)
    → Fits width target
    → All (λ (r : Row). length r ≡ width) rows
    → select_loop test target rows result
      ≡ done (record result { rows = result.rows ++ map (projected target) (keep test rows) })
unfolding select_loop
select_loop_lem test target width [] result f h = rw (append-nil result.rows)
select_loop_lem test target width (r ∷ rs) result f (h, hs) = elim (Bool-cases (test r)) [
  | inl e ↦
      rw (e, select_loop, project_lem target r (rw h f))
        (select_loop_lem test target width rs (insert_row result (projected target r)) f hs
          ∙ unfold insert_row in
            rw (
              append_assoc result.rows (projected target r ∷ [])
                (map (projected target) (keep test rs))))
  | inr e ↦ rw (e, select_loop) (select_loop_lem test target width rs result f hs)
]
