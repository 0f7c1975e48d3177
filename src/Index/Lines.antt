-- ===== src/Index/Lines.antt =====
-- `impl Line` of velacritty_terminal/src/index.rs.
use velacritty.Prelude.{if◌then◌else◌, not}
use velacritty.Prelude.Int.{ℤ, pos, ltb_ℤ}
use velacritty.Prelude.Word.{i32_of, ◌+ᵢ◌, ◌-ᵢ◌}
use velacritty.Index.{
  Boundary, cursor, grid, unbounded, Dimensions, min_ℤ, max_ℤ, rem_ℤ, topmost_line, bottommost_line,
}

unfoldable pub grid_clamp : ℤ → Dimensions → Boundary → ℤ
grid_clamp self d cursor = max_ℤ (pos 0) (min_ℤ (bottommost_line d) self)
grid_clamp self d grid = max_ℤ (topmost_line d) (min_ℤ (bottommost_line d) self)
grid_clamp self d unbounded =
    let screen_lines = i32_of d.screen_lines in
    let total_lines = i32_of d.total_lines in
    if not (ltb_ℤ self screen_lines)
    then topmost_line d +ᵢ rem_ℤ (self -ᵢ screen_lines) total_lines
    else bottommost_line d +ᵢ rem_ℤ (self -ᵢ screen_lines +ᵢ pos 1) total_lines
