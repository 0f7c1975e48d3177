-- ===== src/Grid.antt =====
-- velacritty_terminal/src/grid/mod.rs: the grid of the terminal, its scrolling and its history.
pub mod Resize
pub mod Cell
pub mod Row
pub mod Storage
pub mod Ranges
pub mod Wellformed
pub mod MovesUp
pub mod ScrollUp
pub mod Viewport
pub mod SwapLoop
pub mod Loops
pub mod ResetLoop
pub mod Cells
pub mod Frame
pub mod Clear
use mathlib.Core.List.{reverse, foldl}
use velacritty.Prelude.{
  ℕ, ◌+◌, ◌-◌, ◌%◌, ◌^◌, Bool, true, false, not, ◌&&◌, ◌||◌, Option, none, some, List, min, ltb,
  leb, ◌==◌, if◌then◌else◌, replicate, length,
}
use velacritty.Prelude.Int.{ℤ, pos, negsuc, ◌-ℤ◌, ◌+ℤ◌, ltb_ℤ, pos_part, neg_part}
use velacritty.Prelude.Word.{i32_of, usize_of, usize_add, usize_sub, ◌+ᵢ◌, ◌-ᵢ◌}
use velacritty.Index.{Point, Dimensions, min_ℤ, max_ℤ}
use Cell.{GridCell}
use Row
use Storage
use Ranges.{lines_between, leb_ℤ, eq_ℤ}

-- The character sets are values of the `vte` crate.
pub record Cursor {ℓ} (T C : Type ℓ) : Type ℓ where
  pub point : Point
  pub template : T
  pub charsets : List C
  pub input_needs_wrap : Bool

pub data Scroll : Type 0 where
  delta : ℤ → Scroll
  page_up page_down top bottom : Scroll

pub record Grid {ℓ} (T C : Type ℓ) : Type ℓ where
  pub cursor : Cursor T C
  pub saved_cursor : Cursor T C
  pub raw : Storage.Storage T
  pub columns : ℕ
  pub lines : ℕ
  pub display_offset : ℕ
  pub max_scroll_limit : ℕ
  pub auto_scroll_enabled : Bool

-- `Range<Line>`.
pub record Region : Type 0 where
  pub start : ℤ
  pub end : ℤ

module _ {ℓ} {T C : Type ℓ} where
  -- `impl Dimensions for Grid`.
  abbrev pub dimensions : Grid T C → Dimensions
  dimensions self = record {
    total_lines = self.raw.len;
    screen_lines = self.lines;
    columns = self.columns;
  }

  abbrev pub history_size : Grid T C → ℕ
  history_size self = self.raw.len - self.lines

  unfoldable pub update_history : Grid T C → ℕ → Grid T C
  update_history self size =
      let current = history_size self in
      let raw =
        if ltb size current
        then Storage.shrink_lines self.raw (usize_sub current size)
        else self.raw in
      record self {
        raw = raw;
        display_offset = min self.display_offset size;
        max_scroll_limit = size;
      }

  unfoldable pub scroll_offset : Grid T C → Scroll → ℕ
  unfolding usize_of i32_of ◌+ᵢ◌
  scroll_offset self (delta count) =
      min (usize_of (max_ℤ (i32_of self.display_offset +ᵢ count) (pos 0))) (history_size self)
  scroll_offset self page_up = min (usize_add self.display_offset self.lines) (history_size self)
  scroll_offset self page_down = self.display_offset - self.lines
  scroll_offset self top = history_size self
  scroll_offset self bottom = 0

  unfoldable pub scroll_display : Grid T C → Scroll → Grid T C
  unfolding scroll_offset
  scroll_display self scroll = record self { display_offset = scroll_offset self scroll }

  unfoldable pub clear_history : Grid T C → Grid T C
  clear_history self = record self {
    raw = Storage.shrink_lines self.raw (history_size self);
    display_offset = 0;
  }

  unfoldable pub decrease_scroll_limit : Grid T C → ℕ → Grid T C
  decrease_scroll_limit self count =
      let n = min count (history_size self) in
      let raw = Storage.shrink_lines self.raw (min n (history_size self)) in
      if n == 0 then self else record self {
        raw = raw;
        display_offset = min self.display_offset (raw.len - self.lines);
      }

module _ {ℓ} {T : Type ℓ} ⦃g : GridCell T⦄ where
  -- `raw[line].reset(template)`.
  unfoldable pub reset_line : T → Storage.Storage T → ℤ → Storage.Storage T
  reset_line template raw line = elim (Storage.index raw line) [
    | none ↦ raw
    | some row ↦ Storage.index_mut raw line (Row.reset row template)
  ]

  unfoldable pub reset_lines : T → List ℤ → Storage.Storage T → Storage.Storage T
  unfolding reset_line
  reset_lines template lines raw = foldl (reset_line template) raw lines

module _ {ℓ} {T C : Type ℓ} ⦃g : GridCell T⦄ where
  unfoldable pub increase_scroll_limit : Grid T C → ℕ → Grid T C
  increase_scroll_limit self count =
      let n = min count (usize_sub self.max_scroll_limit (history_size self)) in
      if n == 0 then self else record self { raw = Storage.initialize self.raw n self.columns }

module _ {ℓ} {T : Type ℓ} where
  -- `raw.swap(i, f(i))` for each line.
  unfoldable pub swap_lines : (ℤ → ℤ) → List ℤ → Storage.Storage T → Storage.Storage T
  swap_lines f lines raw = foldl (λ s i. Storage.swap_lines s i (f i)) raw lines

module _ {ℓ} {T C : Type ℓ} ⦃g : GridCell T⦄ where
  unfoldable pub scroll_down : Grid T C → Region → ℕ → Grid T C
  scroll_down self region positions =
      let template = self.cursor.template in
      let screen_lines = i32_of self.lines in
      let cleared = reset_lines template (lines_between region.start region.end) self.raw in
      let fixed_down =
        swap_lines (λ i. i -ᵢ i32_of positions) (lines_between region.end screen_lines) self.raw in
      let rotated = Storage.rotate_down fixed_down positions in
      let fresh = reset_lines template (lines_between (pos 0) (i32_of positions)) rotated in
      let fixed_up =
        swap_lines (λ i. i +ᵢ i32_of positions) (lines_between (pos 0) region.start) fresh in
      let first = region.start +ᵢ i32_of positions in
      let moved =
        swap_lines (λ i. i -ᵢ i32_of positions) (reverse (lines_between first region.end))
          self.raw in
      let sub_fresh = reset_lines template (reverse (lines_between region.start first)) moved in
      if leb_ℤ (region.end -ᵢ region.start) (i32_of positions)
      then record self { raw = cleared }
      else if self.max_scroll_limit == 0
      then record self { raw = fixed_up }
      else record self { raw = sub_fresh }

  -- The last two steps of `scroll_up`: the lines that move, and those that are cleared.
  unfoldable pub move_up : Grid T C → Region → ℕ → Grid T C
  move_up self region positions =
      let grown = increase_scroll_limit self positions in
      let fixed_top =
        swap_lines (λ i. i +ᵢ i32_of positions) (reverse (lines_between (pos 0) region.start))
          grown.raw in
      let rotated = Storage.rotate fixed_top (pos 0 -ℤ pos positions) in
      let fixed_bottom =
        swap_lines (λ i. i -ᵢ i32_of positions)
          (reverse (lines_between region.end (i32_of self.lines))) rotated in
      let moved =
        swap_lines (λ i. i +ᵢ i32_of positions)
          (lines_between region.start (region.end -ᵢ i32_of positions)) self.raw in
      if eq_ℤ region.start (pos 0)
      then record grown { raw = fixed_bottom }
      else record self { raw = moved }

  -- Where `scroll_up` moves the viewport.
  unfoldable pub follow : Grid T C → ℕ → Grid T C
  follow self positions =
      if not (self.display_offset == 0) || not self.auto_scroll_enabled
      then record self {
        display_offset = min (usize_add self.display_offset positions) self.max_scroll_limit;
      }
      else self

  unfoldable pub scroll_up : Grid T C → Region → ℕ → Grid T C
  scroll_up self region positions =
      let template = self.cursor.template in
      let cleared = reset_lines template (lines_between region.start region.end) self.raw in
      let moved = move_up (follow self positions) region positions in
      let fresh =
        reset_lines template (lines_between (region.end -ᵢ i32_of positions) region.end)
          moved.raw in
      if leb_ℤ (region.end -ᵢ region.start) (i32_of positions) && not (eq_ℤ region.start (pos 0))
      then record self { raw = cleared }
      else record moved { raw = fresh }
