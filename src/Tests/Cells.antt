-- ===== src/Tests/Cells.antt =====
-- Characters as cells, as in the tests of velacritty_terminal/src/grid/storage.rs: a reset writes
-- the template, and two cells compare as they are.
use velacritty.Prelude.{ℕ, refl, ◌||◌, arith, ◌==◌}
use velacritty.Grid.Cell.{GridCell, IsLawful}

instance abbrev pub char_cell : GridCell ℕ
char_cell = record {
  default = 0;
  is_empty = λ c. c == b' ' || c == 9;
  reset = λ c t. t;
  same_discriminant = λ a b. a == b;
}

pub char_cell-IsLawful : IsLawful char_cell
char_cell-IsLawful = record {
  reset_any = λ a b t. refl;
  reset_same = λ a t u e. ground arith;
  reset_default = λ a. refl;
}
