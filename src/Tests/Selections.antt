-- ===== src/Tests/Selections.antt =====
use velacritty.Prelude.{◌≡◌, false, true, ◌&&◌, arith, refl}
use velacritty.Prelude.Int.{pos, negsuc}
use velacritty.Index.{Point, left}
use velacritty.Index.Points.{le_point}
use velacritty.Selection.{Selection, SelectionRange, block, is_empty, include_all, contains}
use velacritty.Selection.Emptiness.{is_empty-include_all}
use velacritty.Selection.Contains.{contains_lem}

abbrev first_point : Point
first_point = record { line = negsuc 0; column = 4 }

abbrev second_point : Point
second_point = record { line = pos 2; column = 1 }

-- From the history down to the screen, upwards.
abbrev upwards : Selection
upwards = record {
  ty = block;
  start = record { point = second_point; side = left };
  end = record { point = first_point; side = left };
}

is_empty-include_all_example : is_empty (include_all upwards) ≡ false
is_empty-include_all_example = is_empty-include_all upwards (omega arith) (omega arith)

abbrev three_lines : SelectionRange
three_lines = record { start = first_point; end = second_point; is_block = false }

-- The column stands before the start's, on a later line.
contains_runs : contains three_lines (record { line = pos 0; column = 2 }) ≡ true
unfolding contains
contains_runs = refl

contains_lem_example :
    contains three_lines (record { line = pos 0; column = 2 })
    ≡ le_point first_point (record { line = pos 0; column = 2 })
      && le_point (record { line = pos 0; column = 2 }) second_point
contains_lem_example = contains_lem three_lines (record { line = pos 0; column = 2 }) refl
