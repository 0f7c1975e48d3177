-- ===== src/Grid/Resize.antt =====
-- velacritty_terminal/src/grid/resize.rs: the change of a grid's number of lines.
use velacritty.Prelude.{ℕ, ◌-◌, min, ltb, ◌==◌, if◌then◌else◌}
use velacritty.Prelude.Int.{ℤ, pos}
use velacritty.Prelude.Word.{i32_of, usize_of, usize_add, usize_sub, ◌+ᵢ◌, ◌-ᵢ◌}
use velacritty.Index.{min_ℤ}
use velacritty.Grid.Cell.{GridCell}
use velacritty.Grid.Storage
use velacritty.Grid.{Cursor, Grid, decrease_scroll_limit, history_size, scroll_up}

module _ {ℓ} {T C : Type ℓ} where
  abbrev pub line_down : Cursor T C → ℤ → Cursor T C
  line_down cursor n = record cursor {
    point = record cursor.point { line = cursor.point.line +ᵢ n };
  }

  abbrev pub line_within : Cursor T C → ℤ → Cursor T C
  line_within cursor last = record cursor {
    point = record cursor.point { line = min_ℤ cursor.point.line last };
  }

module _ {ℓ} {T C : Type ℓ} ⦃g : GridCell T⦄ where
  unfoldable pub grow_lines : Grid T C → ℕ → Grid T C
  grow_lines self target =
      let lines_added = usize_sub target self.lines in
      let grown : Grid T C = record self {
        raw = Storage.grow_visible_lines self.raw target;
        lines = target;
      } in
      let from_history = min (history_size grown) lines_added in
      let scrolled =
        if from_history == lines_added
        then grown
        else scroll_up grown (record { start = pos 0; end = i32_of target })
            (lines_added - from_history) in
      decrease_scroll_limit
        (record scrolled {
          saved_cursor = line_down scrolled.saved_cursor (i32_of from_history);
          cursor = line_down scrolled.cursor (i32_of from_history);
          display_offset = scrolled.display_offset - lines_added;
        })
        lines_added

  unfoldable pub shrink_lines : Grid T C → ℕ → Grid T C
  shrink_lines self target =
      let required_scrolling = usize_add (usize_of self.cursor.point.line) 1 - target in
      let last = i32_of target -ᵢ pos 1 in
      let up =
        scroll_up self (record { start = pos 0; end = i32_of self.lines }) required_scrolling in
      let scrolled : Grid T C =
        if ltb 0 required_scrolling
        then record up { cursor = line_within up.cursor last }
        else self in
      record scrolled {
        saved_cursor = line_within scrolled.saved_cursor last;
        raw =
            Storage.shrink_visible_lines
              (Storage.rotate scrolled.raw (pos (usize_sub self.lines target))) target;
        lines = target;
      }
