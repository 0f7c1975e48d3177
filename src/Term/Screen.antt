-- ===== src/Term/Screen.antt =====
-- Handlers that clear, swap and reset the screen (velacritty_terminal/src/term/mod.rs).
pub mod Above
pub mod Swap
use velacritty.Prelude.{
  ℕ, zero, suc, ◌+◌, ◌-◌, Bool, true, false, not, ◌&&◌, Option, none, some, List, [], ◌∷◌, min, ltb,
  ◌==◌, if◌then◌else◌, set, get_elem?,
}
use velacritty.Prelude.Bitflags
use velacritty.Prelude.Int.{ℤ, pos, ltb_ℤ}
use velacritty.Prelude.Word.{i32_of, usize_of, usize_add, usize_sub, ◌+ᵢ◌, ◌-ᵢ◌}
use velacritty.Index.{Point, Boundary}
use velacritty.Index
use velacritty.Index.Lines
use velacritty.Index.Ranges.{Bound, included, excluded, unbounded}
use velacritty.Grid.{dimensions, history_size, clear_history}
use velacritty.Grid.Cells
use velacritty.Grid.Clear
use velacritty.Grid.Row.Slices.{fill_to, fill_from}
use velacritty.Selection
use velacritty.Selection.{Selection}
use velacritty.Term.Cell
use velacritty.Term.Cell.{Cell, cell, from_color, is_none}
use velacritty.Term.Cursor.{set_scrolling_region}
use velacritty.Term.Damage
use velacritty.Term.Edit.{update_row, blank}
use velacritty.Term.External.{External}
use velacritty.Term.Mode
use velacritty.Term.Stacks.{apply_keyboard_mode, last_or, replace}
use velacritty.Term.State
use velacritty.Term.State.{
  Term, Event, size, has_mode, mark_fully_damaged, damage_cursor, cursor_point, keep_selection,
  send_event,
}
use velacritty.Term.TabStops

pub data ClearMode : Type 0 where
  below above all saved : ClearMode

pub data TabulationClearMode : Type 0 where
  current all_tabs : TabulationClearMode

abbrev pub same_color : (x : External) → Option x.Rgb → x.Rgb → Bool
same_color x none b = false
same_color x (some a) b = x.eq_rgb a b

module _ {x : External} where
  -- `self.selection.take().filter(|s| !s.intersects_range(range))`.
  abbrev pub drop_selection : Term x → Bound → Bound → Term x
  drop_selection self first last = record self {
    selection = keep_selection self (λ s. not (Selection.intersects_range s first last));
  }

  abbrev pub reset_region : Term x → Bound → Bound → Term x
  reset_region self first last = record self { grid = Clear.reset_region self.grid first last }

  unfoldable pub clear_above : Term x → Term x
  unfolding update_row
  clear_above self =
      let cursor = cursor_point self in
      let above =
        if ltb_ℤ (pos 1) cursor.line
        then reset_region self unbounded (excluded cursor.line)
        else self in
      let end = min (usize_add cursor.column 1) self.grid.columns in
      drop_selection (update_row above cursor.line (λ row. fill_to row end (blank self)))
        (included (pos 0)) (included cursor.line)

  unfoldable pub clear_below : Term x → Term x
  unfolding update_row
  clear_below self =
      let cursor = cursor_point self in
      let filled = update_row self cursor.line (λ row. fill_from row cursor.column (blank self)) in
      let below =
        if ltb (usize_of cursor.line) (usize_sub self.grid.lines 1)
        then reset_region filled (included (cursor.line +ᵢ pos 1)) unbounded
        else filled in
      drop_selection below (included cursor.line) (excluded (i32_of self.grid.lines))

  unfoldable pub clear_all : Term x → Term x
  clear_all self =
      let grid = Clear.clear_viewport self.grid in
      let lines = grid.display_offset - self.grid.display_offset in
      let line =
        Lines.grid_clamp (self.vi_mode_cursor.line -ᵢ i32_of lines) (dimensions grid) Index.grid in
      if has_mode self Mode.alt_screen
      then record self { grid = Clear.reset_region self.grid unbounded unbounded; selection = none }
      else record self {
        grid = grid;
        vi_mode_cursor = record self.vi_mode_cursor { line = line };
        selection = none;
      }

  unfoldable pub clear_saved : Term x → Term x
  clear_saved self =
      let grid = clear_history self.grid in
      let cleared : Term x = record self {
        grid = grid;
        vi_mode_cursor = record self.vi_mode_cursor {
          line = Lines.grid_clamp self.vi_mode_cursor.line (dimensions grid) Index.cursor;
        };
      } in
      if ltb 0 (history_size self.grid)
      then drop_selection cleared unbounded (excluded (pos 0))
      else self

  unfoldable pub clear_screen : Term x → ClearMode → Term x
  unfolding clear_above clear_below clear_all clear_saved
  clear_screen self above = mark_fully_damaged (clear_above self)
  clear_screen self below = mark_fully_damaged (clear_below self)
  clear_screen self all = mark_fully_damaged (clear_all self)
  clear_screen self saved = mark_fully_damaged (clear_saved self)

  unfoldable pub clear_tabs : Term x → TabulationClearMode → Term x
  clear_tabs self current = record self {
    tabs = TabStops.index_mut self.tabs (cursor_point self).column false;
  }
  clear_tabs self all_tabs = record self { tabs = TabStops.clear_all self.tabs }

  -- What `swap_alt` does on the way to the alternate screen.
  unfoldable pub enter_alt : Term x → Term x
  enter_alt self = record self {
    grid = record self.grid { saved_cursor = self.grid.cursor };
    inactive_grid =
        Clear.reset_region (record self.inactive_grid { cursor = self.grid.cursor }) unbounded
          unbounded;
  }

  unfoldable pub swap_alt : Term x → Term x
  unfolding enter_alt last_or apply_keyboard_mode
  swap_alt self =
      let entered = if has_mode self Mode.alt_screen then self else enter_alt self in
      let swapped : Term x = record entered {
        keyboard_mode_stack = self.inactive_keyboard_mode_stack;
        inactive_keyboard_mode_stack = self.keyboard_mode_stack;
      } in
      let keyboard_mode =
        Mode.from_keyboard_modes x (last_or self.inactive_keyboard_mode_stack x.no_mode) in
      let applied = apply_keyboard_mode swapped keyboard_mode replace in
      mark_fully_damaged (record applied {
        grid = applied.inactive_grid;
        inactive_grid = applied.grid;
        mode = Bitflags.toggle applied.mode Mode.alt_screen;
        selection = none;
      })

  unfoldable pub deccolm : Term x → Term x
  deccolm self =
      mark_fully_damaged (reset_region (set_scrolling_region self 1 none) unbounded unbounded)

  -- The inner and the outer loop of `decaln`.
  unfoldable pub fill_columns : Term x → ℤ → ℕ → ℕ → Term x
  fill_columns self line column zero = self
  fill_columns self line column (suc count) =
      let grid =
        Cells.index_mut self.grid (record { line = line; column = column })
          (record Cell.default { c = 69 }) in
      fill_columns (record self { grid = grid }) line (column + 1) count

  unfoldable pub fill_lines : Term x → ℕ → ℕ → Term x
  unfolding fill_columns
  fill_lines self line zero = self
  fill_lines self line (suc count) =
      fill_lines (fill_columns self (i32_of line) 0 self.grid.columns) (line + 1) count

  unfoldable pub decaln : Term x → Term x
  unfolding fill_lines
  decaln self = mark_fully_damaged (fill_lines self 0 self.grid.lines)

  unfoldable pub reset_state : x.Charset → Term x → Term x
  reset_state ascii self =
      let alt = has_mode self Mode.alt_screen in
      let grid = if alt then self.inactive_grid else self.grid in
      let inactive = if alt then self.grid else self.inactive_grid in
      let cleared : Term x = record self {
        active_charset = 0;
        cursor_style = none;
        grid = Clear.reset ascii grid;
        inactive_grid = Clear.reset ascii inactive;
        scroll_region = record { start = pos 0; end = i32_of grid.lines };
        tabs = TabStops.new grid.columns;
        title_stack = [];
        title = none;
        selection = none;
        vi_mode_cursor = record { line = pos 0; column = 0 };
        keyboard_mode_stack = [];
        inactive_keyboard_mode_stack = [];
        mode = Bitflags.union (Bitflags.keep self.mode (Mode.vi ∷ [])) Mode.default;
      } in
      mark_fully_damaged (send_event cleared State.cursor_blinking_change)

  -- `self.colors[index]`; `none` also stands for the panic out of bounds.
  abbrev pub color_at : Term x → ℕ → Option x.Rgb
  color_at self index = elim (get_elem? self.colors index) [ none ↦ none | some color ↦ color ]

  unfoldable pub set_color : Term x → ℕ → x.Rgb → Term x
  set_color self index color =
      let marked =
        if not (index == x.cursor_color) && not (same_color x (color_at self index) color)
        then mark_fully_damaged self
        else self in
      record marked { colors = set self.colors index (some color) }

  unfoldable pub reset_color : Term x → ℕ → Term x
  reset_color self index =
      let marked =
        if not (index == x.cursor_color) && not (is_none (color_at self index))
        then mark_fully_damaged self
        else self in
      record marked { colors = set self.colors index none }

  unfoldable pub exit : Term x → Term x
  exit self = send_event self State.exit
