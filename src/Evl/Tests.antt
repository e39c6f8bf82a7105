-- ===== src/Evl/Tests.antt =====
-- The evaluation on a small board, and the theorems at concrete inputs.
use com_richard_test.Base.{ℕ, ◌+◌, List, [], ◌∷◌, ◌≡◌, refl, arith}
use com_richard_test.Evl.{
  rm_loop, get_rw_rm, row_loop, rows_loop, get_rw_t, get_col_t, hl_loop, gt_hl,
}
use com_richard_test.Evl.Holes.{holes, gt_hl-holes}
use com_richard_test.Evl.Columns.{get_col_t-changes}

-- Four columns: row 0 is full, row 1 has the holes 1 and 2, and row 2 the hole 1 below row 3.
abbrev board : List ℕ
board = 15 ∷ 9 ∷ 12 ∷ 6 ∷ 0 ∷ []

-- A full row over an empty one is not counted.
full_rows : get_rw_rm (15 ∷ 15 ∷ 0 ∷ 15 ∷ []) 15 4 ≡ 2
unfolding get_rw_rm rm_loop
full_rows = refl

row_changes : get_rw_t board 4 5 ≡ 10
unfolding get_rw_t rows_loop row_loop
row_changes = refl

three_holes : holes board 4 5 3 ≡ 3
three_holes = refl

-- Four empty cells in row 0 stand below filled ones: they are not counted.
row_zero : gt_hl (0 ∷ 15 ∷ []) 4 2 ≡ 0
unfolding gt_hl hl_loop
row_zero = refl

gt_hl-holes_example : gt_hl board 4 5 ≡ 3
gt_hl-holes_example = gt_hl-holes board 4 5 (omega arith)

get_col_t-changes_example : get_col_t board 4 5 15 ≡ 0 + (2 + (2 + (2 + (2 + 0))))
get_col_t-changes_example = get_col_t-changes board 4 5 15
