-- ===== src/Term/Cursor/Resets.antt =====
-- Clearing and filling the screen leave the cursor where it is.
use velacritty.Prelude.{ℕ, zero, suc, min, Option-cases, ◌*◌, ◌+◌, ltb, refl, Bool-cases, inl, inr}
use velacritty.Prelude.Int.{ℤ, pos, ltb_ℤ}
use velacritty.Prelude.Word.{i32_of, usize_of, usize_sub, usize_add, ◌+ᵢ◌, ◌-ᵢ◌}
use velacritty.Index.{Point}
use velacritty.Index.Ranges.{included, excluded, unbounded}
use velacritty.Grid.{Grid, history_size, clear_history}
use velacritty.Grid.Cells
use velacritty.Grid.Clear
use velacritty.Grid.Frame.{SameFrame, scroll_up-SameFrame, index_mut-SameFrame}
use velacritty.Grid.Row.{Row}
use velacritty.Grid.Row.Slices.{fill_to, fill_from}
use velacritty.Term.Cell
use velacritty.Term.Cell.{Cell, cell}
use velacritty.Term.External.{External}
use velacritty.Term.Edit
use velacritty.Term.Mode
use velacritty.Term.Screen
use velacritty.Term.Screen.{ClearMode, TabulationClearMode}
use velacritty.Term.State.{Term, has_mode, mark_fully_damaged, cursor_point}
use velacritty.Term.Cursor.Inside.{OnScreen, frame-OnScreen}
use velacritty.Term.Cursor.Places.{SamePlace-OnScreen, either-OnScreen, update_row-SamePlace}

module _ {x : External} where
  clear_viewport-SameFrame :
      (grid : Grid (Cell x) x.Charset) → SameFrame grid (Clear.clear_viewport grid)
  unfolding Clear.clear_viewport
  clear_viewport-SameFrame grid =
      elim (Option-cases (
        Clear.scan_back (grid.lines * grid.columns + 1) (
          Cells.iter_from grid
            (record { line = i32_of grid.lines -ᵢ pos 1; column = grid.columns })))) [
              | inl e ↦
                  rw (Clear.clear_viewport, e)
                    (record { cursor = refl; saved_cursor = refl; lines = refl; columns = refl })
              | inr (iter, e) ↦
                  let f =
                    scroll_up-SameFrame grid (record { start = pos 0; end = i32_of grid.lines })
                      (usize_of (iter.point.line +ᵢ pos 1)) in
                  rw (Clear.clear_viewport, e)
                    (record {
                      cursor = f.cursor;
                      saved_cursor = f.saved_cursor;
                      lines = f.lines;
                      columns = f.columns;
                    })
            ]

  clear_above-OnScreen : (self : Term x) → OnScreen self → OnScreen (Screen.clear_above self)
  unfolding Screen.clear_above Clear.reset_region Edit.update_row
  clear_above-OnScreen self w =
      let cursor = cursor_point self in
      let above =
        either-OnScreen (ltb_ℤ (pos 1) cursor.line)
          (Screen.reset_region self unbounded (excluded cursor.line)) self w w in
      SamePlace-OnScreen
        (update_row-SamePlace _ cursor.line (λ row.
          fill_to row (min (usize_add cursor.column 1) self.grid.columns) (Edit.blank self)))
        above

  clear_below-OnScreen : (self : Term x) → OnScreen self → OnScreen (Screen.clear_below self)
  unfolding Screen.clear_below Clear.reset_region Edit.update_row
  clear_below-OnScreen self w =
      let cursor = cursor_point self in
      let write : Row (Cell x) → Row (Cell x) =
        λ row. fill_from row cursor.column (Edit.blank self) in
      let filled = SamePlace-OnScreen (update_row-SamePlace self cursor.line write) w in
      either-OnScreen (ltb (usize_of cursor.line) (usize_sub self.grid.lines 1))
        (Screen.reset_region (Edit.update_row self cursor.line write)
          (included (cursor.line +ᵢ pos 1)) unbounded)
        (Edit.update_row self cursor.line write) filled filled

  clear_all-OnScreen : (self : Term x) → OnScreen self → OnScreen (Screen.clear_all self)
  unfolding Screen.clear_all Clear.reset_region
  clear_all-OnScreen self w = elim (Bool-cases (has_mode self Mode.alt_screen)) [
    | inl e ↦ rw e w
    | inr e ↦ rw e (frame-OnScreen self.scroll_region (clear_viewport-SameFrame self.grid) w)
  ]

  clear_saved-OnScreen : (self : Term x) → OnScreen self → OnScreen (Screen.clear_saved self)
  unfolding Screen.clear_saved clear_history
  clear_saved-OnScreen self w = elim (Bool-cases (ltb 0 (history_size self.grid))) [
    | inl e ↦ rw e w
    | inr e ↦ rw e w
  ]

  pub clear_screen-OnScreen :
      (self : Term x) (mode : ClearMode) → OnScreen self → OnScreen (Screen.clear_screen self mode)
  unfolding Screen.clear_screen mark_fully_damaged
  clear_screen-OnScreen self Screen.above w = clear_above-OnScreen self w
  clear_screen-OnScreen self Screen.below w = clear_below-OnScreen self w
  clear_screen-OnScreen self Screen.all w = clear_all-OnScreen self w
  clear_screen-OnScreen self Screen.saved w = clear_saved-OnScreen self w

  pub clear_tabs-OnScreen :
      (self : Term x) (mode : TabulationClearMode)
      → OnScreen self
      → OnScreen (Screen.clear_tabs self mode)
  unfolding Screen.clear_tabs
  clear_tabs-OnScreen self Screen.current w = w
  clear_tabs-OnScreen self Screen.all_tabs w = w

  fill_columns-OnScreen :
      (self : Term x) (line : ℤ) (column count : ℕ)
      → OnScreen self
      → OnScreen (Screen.fill_columns self line column count)
  unfolding Screen.fill_columns
  fill_columns-OnScreen self line column zero w = w
  fill_columns-OnScreen self line column (suc count) w =
      let c : Cell x = record Cell.default { c = 69 } in
      let p : Point = record { line = line; column = column } in
      fill_columns-OnScreen (record self { grid = Cells.index_mut self.grid p c }) line (column + 1)
        count (frame-OnScreen self.scroll_region (index_mut-SameFrame self.grid p c) w)

  fill_lines-OnScreen :
      (self : Term x) (line count : ℕ)
      → OnScreen self
      → OnScreen (Screen.fill_lines self line count)
  unfolding Screen.fill_lines
  fill_lines-OnScreen self line zero w = w
  fill_lines-OnScreen self line (suc count) w =
      fill_lines-OnScreen (Screen.fill_columns self (i32_of line) 0 self.grid.columns) (line + 1)
        count (fill_columns-OnScreen self (i32_of line) 0 self.grid.columns w)

  pub decaln-OnScreen : (self : Term x) → OnScreen self → OnScreen (Screen.decaln self)
  unfolding Screen.decaln mark_fully_damaged
  decaln-OnScreen self w = fill_lines-OnScreen self 0 self.grid.lines w
