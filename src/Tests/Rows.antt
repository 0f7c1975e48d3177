-- ===== src/Tests/Rows.antt =====
use velacritty.Prelude.{ℕ, ◌≡◌, ◌≤◌, refl, some, true, List, [], ◌∷◌, ◌++◌, arith, length}
use velacritty.Grid.Row
use velacritty.Grid.Row.{Row}
use velacritty.Grid.Row.Reset.{IsClean, reset_lem, reset-grow_keeps}
use velacritty.Grid.Row.Split.{handed, shrink_lem}
use velacritty.Tests.Cells.{char_cell, char_cell-IsLawful}

-- Two dirty cells, and two that a reset by 7 left.
abbrev dirty_row : Row ℕ
dirty_row = record { inner = 65 ∷ 66 ∷ 7 ∷ 7 ∷ []; occ = 2 }

dirty_row-IsClean : IsClean 7 dirty_row
dirty_row-IsClean = record { occ_in = omega arith; tail = refl }

-- Only the dirty cells are reset by the same template.
reset_dirty : Row.dirty dirty_row 7 ≡ 2
unfolding Row.dirty
reset_dirty = refl

reset_lem_example : Row.reset dirty_row 9 ≡ record { inner = 9 ∷ 9 ∷ 9 ∷ 9 ∷ []; occ = 0 }
reset_lem_example = reset_lem char_cell-IsLawful 9 dirty_row-IsClean (omega arith)

abbrev red_row : Row ℕ
red_row = record { inner = 7 ∷ 7 ∷ []; occ = 0 }

reset-grow_keeps_example : (Row.reset (Row.grow red_row 4) 0).inner ≡ 7 ∷ 7 ∷ 0 ∷ 0 ∷ []
reset-grow_keeps_example = reset-grow_keeps red_row 4 0 refl (omega arith) refl

abbrev wide_row : Row ℕ
wide_row = record { inner = 65 ∷ 66 ∷ 67 ∷ 32 ∷ []; occ = 4 }

shrink_runs : (Row.shrink wide_row 1).0 ≡ some (66 ∷ 67 ∷ [])
unfolding Row.shrink Row.content_len Row.rposition
shrink_runs = refl

shrink_lem_example :
    let (taken, row') = Row.shrink wide_row 1 in
    (r : List ℕ) × (row'.inner ++ (handed taken ++ r) ≡ 65 ∷ 66 ∷ 67 ∷ 32 ∷ [])
    × (Row.all_empty r ≡ true)
    × (length row'.inner ≡ 1)
    × (row'.occ ≤ 1)
shrink_lem_example = shrink_lem wide_row 1 (omega arith)
