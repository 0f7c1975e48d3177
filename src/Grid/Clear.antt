-- ===== src/Grid/Clear.antt =====
-- The operations that make, clear and reset whole grids (velacritty_terminal/src/grid/mod.rs).
pub mod Ends
use velacritty.Prelude.{
  ℕ, zero, suc, ◌+◌, ◌*◌, Bool, true, false, not, ◌&&◌, Option, none, some, [], ◌∷◌,
}
use velacritty.Prelude.Int.{ℤ, pos, ltb_ℤ}
use velacritty.Prelude.Word.{i32_of, usize_of, usize_sub, ◌+ᵢ◌, ◌-ᵢ◌}
use velacritty.Index.{Point, topmost_line}
use velacritty.Grid.Cell.{GridCell}
use velacritty.Grid.Storage
use velacritty.Grid.Ranges.{lines_between}
use velacritty.Grid.Cells.{Indexed, GridIterator, iter_from, prev}
use velacritty.Grid.{Cursor, Grid, dimensions, history_size, clear_history, reset_lines, scroll_up}
use velacritty.Index.Ranges.{Bound, included, excluded, unbounded}

abbrev pub region_start : Bound → ℤ
region_start (included line) = line
region_start (excluded line) = line +ᵢ pos 1
region_start unbounded = pos 0

abbrev pub region_end : ℕ → Bound → ℤ
region_end lines (included line) = line +ᵢ pos 1
region_end lines (excluded line) = line
region_end lines unbounded = i32_of lines

module _ {ℓ} {T C : Type ℓ} where
  unfoldable pub set_auto_scroll_enabled : Grid T C → Bool → Grid T C
  set_auto_scroll_enabled self enabled = record self { auto_scroll_enabled = enabled }

  unfoldable pub truncate : Grid T C → Grid T C
  truncate self = record self { raw = Storage.truncate self.raw }

module _ {ℓ} {T : Type ℓ} ⦃g : GridCell T⦄ where
  -- The loop condition and the break: the iterator goes on.
  abbrev pub goes_on : Option (Indexed T) → Bool
  goes_on none = false
  goes_on (some indexed) = g.is_empty indexed.cell && not (ltb_ℤ indexed.point.line (pos 0))

module _ {ℓ} {T C : Type ℓ} ⦃g : GridCell T⦄ where
  -- The four character sets are `StandardCharset::Ascii`.
  unfoldable pub default_cursor : C → Cursor T C
  default_cursor ascii = record {
    point = record { line = pos 0; column = 0 };
    template = g.default;
    charsets = ascii ∷ ascii ∷ ascii ∷ ascii ∷ [];
    input_needs_wrap = false;
  }

  unfoldable pub new : C → ℕ → ℕ → ℕ → Grid T C
  new ascii lines columns max_scroll_limit = record {
    raw = Storage.with_capacity lines columns;
    max_scroll_limit = max_scroll_limit;
    display_offset = 0;
    saved_cursor = default_cursor ascii;
    cursor = default_cursor ascii;
    auto_scroll_enabled = true;
    lines = lines;
    columns = columns;
  }

  unfoldable pub initialize_all : Grid T C → Grid T C
  unfolding truncate
  initialize_all self =
      let truncated = truncate self in
      record truncated {
        raw =
            Storage.initialize truncated.raw
              (usize_sub self.max_scroll_limit (history_size truncated)) self.columns;
      }

  unfoldable pub reset_region : Grid T C → Bound → Bound → Grid T C
  reset_region self start_bound end_bound = record self {
    raw =
        reset_lines self.cursor.template
          (lines_between (region_start start_bound) (region_end self.lines end_bound)) self.raw;
  }

  unfoldable pub reset : C → Grid T C → Grid T C
  reset ascii self =
      let cleared = clear_history self in
      let cursor = default_cursor ascii in
      record cleared {
        saved_cursor = cursor;
        cursor = cursor;
        display_offset = 0;
        raw =
            reset_lines cursor.template
              (lines_between (topmost_line (dimensions cleared)) (i32_of cleared.lines))
              cleared.raw;
      }

  -- The loop that looks for the last cell with content; `none` when the fuel runs out.
  unfoldable pub scan_back : ℕ → GridIterator T C → Option (GridIterator T C)
  scan_back zero iter = none
  scan_back (suc n) iter =
      let (cell, iter') = prev iter in
      elim (goes_on cell) [ true ↦ scan_back n iter' | false ↦ some iter' ]

  -- One round for each cell of the screen, and one more.
  unfoldable pub clear_viewport : Grid T C → Grid T C
  clear_viewport self =
      let end : Point = record { line = i32_of self.lines -ᵢ pos 1; column = self.columns } in
      elim (scan_back (self.lines * self.columns + 1) (iter_from self end)) [
        | none ↦ self
        | some iter ↦
            let positions = usize_of (iter.point.line +ᵢ pos 1) in
            let scrolled =
              scroll_up self (record { start = pos 0; end = i32_of self.lines }) positions in
            record scrolled {
              raw =
                  reset_lines self.cursor.template
                    (lines_between (pos 0) (i32_of (usize_sub self.lines positions))) scrolled.raw;
            }
      ]
