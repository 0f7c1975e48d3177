-- ===== src/Tests/Points.antt =====
use velacritty.Prelude.{◌≡◌, arith}
use velacritty.Prelude.Int.{pos, negsuc, ◌+ℤ◌, ◌-ℤ◌}
use velacritty.Index
use velacritty.Index.{Point, Dimensions, IsSized, grid, unbounded}
use velacritty.Index.Bounds.{IsInside, grid_clamp-IsInside}
use velacritty.Index.Points
use velacritty.Index.Travel.{forward, sub-add}

-- Three lines of ten columns, and four lines of history.
abbrev size : Dimensions
size = record { total_lines = 7; screen_lines = 3; columns = 10 }

size-IsSized : IsSized size
size-IsSized = omega arith

abbrev far : Point
far = record { line = pos 9; column = 12 }

abbrev near : Point
near = record { line = negsuc 1; column = 7 }

grid_clamp-IsInside_example : IsInside size unbounded (Points.grid_clamp far size unbounded)
unfolding ◌-ℤ◌
grid_clamp-IsInside_example = grid_clamp-IsInside unbounded far size-IsSized (omega arith)

near-IsInside : IsInside size grid near
unfolding Index.topmost_line Index.bottommost_line Index.last_column Index.history_size
near-IsInside = record { line_lo = omega arith; line_hi = omega arith; column_hi = omega arith }

there-IsInside : IsInside size grid (forward size near 25)
unfolding ◌+ℤ◌ Index.topmost_line Index.bottommost_line Index.last_column Index.history_size
there-IsInside = record { line_lo = omega arith; line_hi = omega arith; column_hi = omega arith }

-- 25 cells on from the history to the screen, and back.
sub-add_example : Points.sub (Points.add near size grid 25) size grid 25 ≡ near
sub-add_example = sub-add size-IsSized grid near near-IsInside 25 (omega arith) there-IsInside
