-- ===== src/Term/Cursor.antt =====
-- The handlers that move the cursor (velacritty_terminal/src/term/mod.rs).
pub mod Inside
pub mod Places
pub mod Writes
pub mod Steps
pub mod Regions
pub mod Screens
pub mod Resets
pub mod Lines
pub mod Moves
use velacritty.Prelude.{
  ℕ, zero, suc, ◌+◌, ◌-◌, Bool, true, false, not, Option, none, some, List, [], ◌∷◌, min, ltb, ◌==◌,
  if◌then◌else◌, length,
}
use velacritty.Prelude.Bitflags
use velacritty.Prelude.Int.{ℤ, pos, ltb_ℤ}
use velacritty.Prelude.Word.{i32_of, usize_add, usize_sub, ◌+ᵢ◌, ◌-ᵢ◌}
use velacritty.Index.{Point, min_ℤ, max_ℤ, bottommost_line, last_column}
use velacritty.Grid.Cells
use velacritty.Term.Cell.{Cell, space, tab}
use velacritty.Term.External.{External}
use velacritty.Term.Mode
use velacritty.Term.Scroll.{linefeed, wrapline}
use velacritty.Term.TabStops
use velacritty.Term.State.{
  Term, Event, size, has_mode, damage_cursor, damage_line, cursor_point, set_line, set_point,
  set_column, set_needs_wrap, send_event, bell,
}

module _ {x : External} where
  -- The first line and the last line that `goto` reaches.
  unfoldable pub y_bounds : Term x → ℤ × ℤ
  unfolding bottommost_line ◌-ᵢ◌
  y_bounds self =
      if has_mode self Mode.origin
      then (self.scroll_region.start, self.scroll_region.end -ᵢ pos 1)
      else (pos 0, bottommost_line (size self))

  unfoldable pub goto : Term x → ℤ → ℕ → Term x
  unfolding y_bounds
  goto self line col =
      let (y_offset, max_y) = y_bounds self in
      let point : Point = record {
        line = max_ℤ (min_ℤ (line +ᵢ y_offset) max_y) (pos 0);
        column = min col (last_column (size self));
      } in
      set_needs_wrap (damage_cursor (set_point (damage_cursor self) point)) false

  unfoldable pub goto_line : Term x → ℤ → Term x
  goto_line self line = goto self line (cursor_point self).column

  unfoldable pub goto_col : Term x → ℕ → Term x
  goto_col self col = goto self (cursor_point self).line col

  unfoldable pub move_up : Term x → ℕ → Term x
  move_up self lines =
      goto self ((cursor_point self).line -ᵢ i32_of lines) (cursor_point self).column

  unfoldable pub move_down : Term x → ℕ → Term x
  move_down self lines =
      goto self ((cursor_point self).line +ᵢ i32_of lines) (cursor_point self).column

  unfoldable pub move_down_and_cr : Term x → ℕ → Term x
  move_down_and_cr self lines = goto self ((cursor_point self).line +ᵢ i32_of lines) 0

  unfoldable pub move_up_and_cr : Term x → ℕ → Term x
  move_up_and_cr self lines = goto self ((cursor_point self).line -ᵢ i32_of lines) 0

  unfoldable pub move_forward : Term x → ℕ → Term x
  move_forward self cols =
      let point = cursor_point self in
      let column = min (usize_add point.column cols) (last_column (size self)) in
      set_needs_wrap (set_column (damage_line self point.line point.column column) column) false

  unfoldable pub move_backward : Term x → ℕ → Term x
  move_backward self cols =
      let point = cursor_point self in
      let column = point.column - cols in
      set_needs_wrap (set_column (damage_line self point.line column point.column) column) false

  unfoldable pub backspace : Term x → Term x
  backspace self =
      let point = cursor_point self in
      if ltb 0 point.column
      then damage_line (set_needs_wrap (set_column self (point.column - 1)) false) point.line
          (point.column - 1) point.column
      else self

  unfoldable pub carriage_return : Term x → Term x
  carriage_return self =
      let point = cursor_point self in
      set_needs_wrap (set_column (damage_line self point.line 0 point.column) 0) false

  unfoldable pub newline : Term x → Term x
  unfolding carriage_return
  newline self =
      let fed = linefeed self in
      if has_mode fed Mode.line_feed_new_line then carriage_return fed else fed

  unfoldable pub ring_bell : Term x → Term x
  ring_bell self = send_event self bell

  unfoldable pub set_horizontal_tabstop : Term x → Term x
  set_horizontal_tabstop self = record self {
    tabs = TabStops.index_mut self.tabs (cursor_point self).column true;
  }

  abbrev pub is_stop : Term x → ℕ → Bool
  is_stop self column = elim (TabStops.index self.tabs column) [ none ↦ false | some b ↦ b ]

  -- The next stop after `column`, among the `count` columns that follow, or the last of these.
  unfoldable pub next_stop : Term x → ℕ → ℕ → ℕ
  next_stop self column zero = column
  next_stop self column (suc count) =
      let rest = next_stop self (column + 1) count in
      if is_stop self (column + 1) then column + 1 else rest

  -- The stop before `column`, or `column` itself.
  unfoldable pub previous_stop : Term x → ℕ → ℕ → ℕ
  previous_stop self column zero = column
  previous_stop self column (suc i) =
      let rest = previous_stop self column i in if is_stop self i then i else rest

  -- A tab in the cell at the cursor, if that is blank.
  unfoldable pub write_tab : Term x → Term x
  write_tab self =
      let c : ℕ = elim (Cells.charset self.grid.cursor.charsets self.active_charset) [
        | none ↦ tab
        | some charset ↦ x.map_char charset tab
      ] in
      record self {
        grid =
            Cells.update self.grid (cursor_point self)
              (λ (cell : Cell x). if cell.c == space then record cell { c = c } else cell);
      }

  -- The loop of `put_tab`; its inner loop goes to the next stop, or to the last column.
  unfoldable pub put_tabs : Term x → ℕ → Term x
  unfolding write_tab next_stop
  put_tabs self zero = self
  put_tabs self (suc count) =
      let column = (cursor_point self).column in
      let written = write_tab self in
      let stop = next_stop self column (self.grid.columns - (column + 1)) in
      elim (ltb column self.grid.columns) [
        | true ↦ put_tabs (set_column written stop) count
        | false ↦ self
      ]

  unfoldable pub put_tab : Term x → ℕ → Term x
  put_tab self count =
      if self.grid.cursor.input_needs_wrap then wrapline self else put_tabs self count

  -- The loops of `move_backward_tabs` and `move_forward_tabs`, to the column that they end in.
  unfoldable pub back_tabs : Term x → ℕ → ℕ → ℕ
  unfolding previous_stop
  back_tabs self column zero = column
  back_tabs self column (suc count) = elim (column == 0) [
    | true ↦ column
    | false ↦ back_tabs self (previous_stop self column column) count
  ]

  unfoldable pub forward_tabs : Term x → ℕ → ℕ → ℕ
  unfolding next_stop
  forward_tabs self column zero = column
  forward_tabs self column (suc count) = elim (column == usize_sub self.grid.columns 1) [
    | true ↦ column
    | false ↦ forward_tabs self (next_stop self column (self.grid.columns - (column + 1))) count
  ]

  unfoldable pub move_backward_tabs : Term x → ℕ → Term x
  move_backward_tabs self count =
      let point = cursor_point self in
      let column = back_tabs self point.column count in
      damage_line (set_column self column) point.line column point.column

  unfoldable pub move_forward_tabs : Term x → ℕ → Term x
  move_forward_tabs self count =
      let point = cursor_point self in
      let column = forward_tabs self point.column count in
      damage_line (set_column self column) point.line point.column column

  unfoldable pub save_cursor_position : Term x → Term x
  save_cursor_position self = record self {
    grid = record self.grid { saved_cursor = self.grid.cursor };
  }

  unfoldable pub restore_cursor_position : Term x → Term x
  restore_cursor_position self =
      let damaged = damage_cursor self in
      damage_cursor
        (record damaged { grid = record damaged.grid { cursor = damaged.grid.saved_cursor } })

  unfoldable pub set_scrolling_region : Term x → ℕ → Option ℕ → Term x
  set_scrolling_region self top bottom =
      let bottom' : ℕ = elim bottom [ none ↦ self.grid.lines | some b ↦ b ] in
      let screen_lines = i32_of self.grid.lines in
      if ltb top bottom'
      then goto
          (record self {
            scroll_region = record {
              start = min_ℤ (i32_of top -ᵢ pos 1) screen_lines;
              end = min_ℤ (i32_of bottom') screen_lines;
            };
          })
          (pos 0) 0
      else self
