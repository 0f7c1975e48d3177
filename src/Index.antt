-- ===== src/Index.antt =====
-- velacritty_terminal/src/index.rs, and the trait `Dimensions` of grid/mod.rs: lines, columns and
-- points of the terminal. A line is an `i32`: 0 is the top line of the screen, and the history has
-- the negative ones.
pub mod Lines
pub mod Ranges
pub mod Points
pub mod Bounds
pub mod Travel
use velacritty.Prelude.{ℕ, ◌+◌, ◌-◌, ◌%◌, ◌^◌, ◌≤◌, ◌<◌, if◌then◌else◌}
use velacritty.Prelude.Int.{ℤ, pos, negsuc, pos_part, neg_part, sub_ℕ, ltb_ℤ}
use velacritty.Prelude.Word.{i32_of, usize_sub, ◌-ᵢ◌}

pub data Direction : Type 0 where
  left right : Direction

unfoldable pub opposite : Direction → Direction
opposite right = left
opposite left = right

pub data Boundary : Type 0 where
  cursor grid unbounded : Boundary

pub record Point : Type 0 where
  pub line : ℤ
  pub column : ℕ

-- The three numbers that an implementation of `Dimensions` gives.
pub record Dimensions : Type 0 where
  pub total_lines : ℕ
  pub screen_lines : ℕ
  pub columns : ℕ

-- `min` and `max` of lines.
abbrev pub min_ℤ : ℤ → ℤ → ℤ
min_ℤ a b = if ltb_ℤ b a then b else a

abbrev pub max_ℤ : ℤ → ℤ → ℤ
max_ℤ a b = if ltb_ℤ b a then a else b

-- `%` of `i32`, with the sign of the dividend. (A divisor of 0 panics; here it gives the dividend.)
unfoldable pub rem_ℤ : ℤ → ℤ → ℤ
rem_ℤ (pos a) b = pos (a % (pos_part b + neg_part b))
rem_ℤ (negsuc a) b = sub_ℕ 0 ((a + 1) % (pos_part b + neg_part b))

unfoldable pub last_column : Dimensions → ℕ
last_column d = usize_sub d.columns 1

-- `saturating_sub` is `-` on ℕ.
unfoldable pub history_size : Dimensions → ℕ
history_size d = d.total_lines - d.screen_lines

unfoldable pub topmost_line : Dimensions → ℤ
unfolding history_size i32_of ◌-ᵢ◌
topmost_line d = pos 0 -ᵢ i32_of (history_size d)

unfoldable pub bottommost_line : Dimensions → ℤ
unfolding i32_of ◌-ᵢ◌
bottommost_line d = i32_of d.screen_lines -ᵢ pos 1

-- The sizes that terminals have: a screen of one line and one column at least, whose lines, with
-- the history, can be numbered.
pub record IsSized (d : Dimensions) : Type 0 where
  pub some_line : 0 < d.screen_lines
  pub some_column : 0 < d.columns
  pub column_fits : d.columns < 2 ^ 31
  pub screen_in : d.screen_lines ≤ d.total_lines
  pub total_fits : d.total_lines < 2 ^ 31
