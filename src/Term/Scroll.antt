-- ===== src/Term/Scroll.antt =====
-- Scrolling of the terminal's region, and the operations that move to another line
-- (velacritty_terminal/src/term/mod.rs).
use velacritty.Prelude.{
  ℕ, Bool, false, not, ◌&&◌, Option, none, some, min, ltb, ◌==◌, if◌then◌else◌,
}
use velacritty.Prelude.Bitflags
use velacritty.Prelude.Int.{ℤ, pos, ltb_ℤ}
use velacritty.Prelude.Word.{i32_of, usize_of, usize_sub, ◌+ᵢ◌, ◌-ᵢ◌}
use velacritty.Index.{min_ℤ, max_ℤ, bottommost_line}
use velacritty.Grid
use velacritty.Grid.{Region, Grid, Scroll}
use velacritty.Grid.Cells
use velacritty.Grid.Ranges.{eq_ℤ, leb_ℤ}
use velacritty.Selection.{Selection}
use velacritty.Selection.Rotate.{rotate}
use velacritty.Term.Cell.{Cell, cell}
use velacritty.Term.External.{External}
use velacritty.Term.Flags
use velacritty.Term.Mode
use velacritty.Term.State.{
  Term, size, has_mode, mark_fully_damaged, damage_cursor, cursor_point, set_line, set_column,
  set_needs_wrap, send_event, mouse_cursor_dirty, vi_mode_recompute_selection,
}

-- `Range::contains`.
abbrev pub contains_line : Region → ℤ → Bool
contains_line region line = leb_ℤ region.start line && ltb_ℤ line region.end

module _ {x : External} where
  -- `self.selection.take().and_then(|s| s.rotate(..))`.
  unfoldable pub rotate_selection : Term x → Region → ℤ → Option Selection
  rotate_selection self region delta = elim self.selection [
    | none ↦ none
    | some s ↦ rotate s (size self) region delta
  ]

  -- The lines to scroll, bounded by the scroll region and by the lines below the origin.
  unfoldable pub lines_down : Term x → ℤ → ℕ → ℕ
  lines_down self origin lines =
      let region = self.scroll_region in
      min (min lines (usize_of (region.end -ᵢ region.start))) (usize_of (region.end -ᵢ origin))

  unfoldable pub scroll_down_relative : Term x → ℤ → ℕ → Term x
  unfolding lines_down rotate_selection
  scroll_down_relative self origin lines =
      let n = lines_down self origin lines in
      let region : Region = record { start = origin; end = self.scroll_region.end } in
      let selection = rotate_selection self region (pos 0 -ᵢ i32_of n) in
      let line = self.vi_mode_cursor.line in
      mark_fully_damaged (record self {
        selection = selection;
        vi_mode_cursor =
            if contains_line region line
            then record self.vi_mode_cursor {
              line = min_ℤ (line +ᵢ i32_of n) (region.end -ᵢ pos 1);
            }
            else self.vi_mode_cursor;
        grid = Grid.scroll_down self.grid region n;
      })

  unfoldable pub lines_up : Term x → ℕ → ℕ
  lines_up self lines = min lines (usize_of (self.scroll_region.end -ᵢ self.scroll_region.start))

  unfoldable pub scroll_up_relative : Term x → ℤ → ℕ → Term x
  unfolding lines_up rotate_selection
  scroll_up_relative self origin lines =
      let n = lines_up self lines in
      let region : Region = record { start = origin; end = self.scroll_region.end } in
      let selection = rotate_selection self region (i32_of n) in
      let grid = Grid.scroll_up self.grid region n in
      let viewport_top = pos 0 -ᵢ i32_of grid.display_offset in
      let top = if eq_ℤ region.start (pos 0) then viewport_top else region.start in
      let line = self.vi_mode_cursor.line in
      mark_fully_damaged (record self {
        selection = selection;
        grid = grid;
        vi_mode_cursor =
            if leb_ℤ top line && ltb_ℤ line region.end
            then record self.vi_mode_cursor { line = max_ℤ (line -ᵢ i32_of n) top }
            else self.vi_mode_cursor;
      })

  unfoldable pub scroll_up : Term x → ℕ → Term x
  scroll_up self lines = scroll_up_relative self self.scroll_region.start lines

  unfoldable pub scroll_down : Term x → ℕ → Term x
  scroll_down self lines = scroll_down_relative self self.scroll_region.start lines

  unfoldable pub insert_blank_lines : Term x → ℕ → Term x
  insert_blank_lines self lines =
      let origin = (cursor_point self).line in
      if contains_line self.scroll_region origin
      then scroll_down_relative self origin lines
      else self

  unfoldable pub delete_lines : Term x → ℕ → Term x
  delete_lines self lines =
      let origin = (cursor_point self).line in
      let n = min (usize_sub self.grid.lines (usize_of origin)) lines in
      if ltb 0 n && contains_line self.scroll_region origin
      then scroll_up_relative self origin n
      else self

  unfoldable pub linefeed : Term x → Term x
  linefeed self =
      let next = (cursor_point self).line +ᵢ pos 1 in
      if eq_ℤ next self.scroll_region.end
      then scroll_up self 1
      else if ltb_ℤ next (i32_of self.grid.lines)
      then damage_cursor (set_line (damage_cursor self) next)
      else self

  unfoldable pub reverse_index : Term x → Term x
  reverse_index self =
      let line = (cursor_point self).line in
      if eq_ℤ line self.scroll_region.start
      then scroll_down self 1
      else damage_cursor (set_line (damage_cursor self) (max_ℤ (line -ᵢ pos 1) (pos 0)))

  -- The cell at the cursor gets a flag.
  unfoldable pub flag_cursor_cell : Term x → ℕ → Term x
  flag_cursor_cell self flag = record self {
    grid =
        Cells.update self.grid (cursor_point self)
          (λ (cell : Cell x). record cell { flags = Bitflags.insert cell.flags flag });
  }

  unfoldable pub wrapline : Term x → Term x
  unfolding flag_cursor_cell
  wrapline self =
      let flagged = flag_cursor_cell self Flags.wrapline in
      let line = (cursor_point self).line in
      let below =
        if leb_ℤ self.scroll_region.end (line +ᵢ pos 1)
        then linefeed flagged
        else set_line (damage_cursor flagged) (line +ᵢ pos 1) in
      if not (has_mode self Mode.line_wrap)
      then self
      else damage_cursor (set_needs_wrap (set_column below 0) false)

  -- `Term::scroll_display`.
  unfoldable pub scroll_display : Term x → Scroll → Term x
  scroll_display self scroll =
      let grid = Grid.scroll_display self.grid scroll in
      let moved = send_event (record self { grid = grid }) mouse_cursor_dirty in
      let viewport_start = pos 0 -ᵢ i32_of grid.display_offset in
      let viewport_end = viewport_start +ᵢ bottommost_line (size self) in
      let point = record self.vi_mode_cursor {
        line = min_ℤ viewport_end (max_ℤ viewport_start self.vi_mode_cursor.line);
      } in
      let selected = vi_mode_recompute_selection (record moved { vi_mode_cursor = point }) in
      if self.grid.display_offset == grid.display_offset
      then selected
      else mark_fully_damaged selected
