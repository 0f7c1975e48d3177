-- ===== src/Term/Cursor/Inside.antt =====
-- The cursor stays on the screen, whatever moves it.
use velacritty.Prelude.{ℕ, ◌+◌, ◌-◌, ◌≤◌, ◌<◌, ◌^◌, ◌≡◌, arith, Bool-cases, inl, inr}
use velacritty.Prelude.Int.{ℤ, pos, negsuc, ◌-ℤ◌, pos_part, neg_part, ◌≤ℤ◌}
use velacritty.Prelude.Word.{i32_of, ◌+ᵢ◌, ◌-ᵢ◌, i32_wrap}
use velacritty.Index.{Point, min_ℤ, max_ℤ, bottommost_line, last_column}
use velacritty.Grid.{Region, Grid}
use velacritty.Grid.Frame.{SameFrame, scroll_up-SameFrame}
use velacritty.Term.External.{External}
use velacritty.Term.Cell.{Cell, cell}
use velacritty.Term.State.{set_column, Term, has_mode, damage_cursor, mark_fully_damaged}
use velacritty.Term.Scroll
use velacritty.Term.Mode
use velacritty.Term.Cursor.{goto, y_bounds}

pub record IsInside (lines columns : ℕ) (point : Point) : Type 0 where
  pub above : pos 0 ≤ℤ point.line
  pub below : pos_part point.line + 1 ≤ lines + neg_part point.line
  pub within : point.column < columns

-- A screen with a line and two columns at least, which an `i32` numbers, a scroll region inside it, and
-- the cursor and the saved cursor on it; the other grid has the same size, and its cursors are on it.
pub record IsOnScreen {T C : Type 0} (lines columns : ℕ) (region : Region) (point saved : Point)
    (other : Grid T C) : Type 0 where
  pub some_line : 0 < lines
  pub some_column : 0 < columns
  pub wide_column : 1 < columns
  pub lines_fit : lines < 2 ^ 31
  pub columns_fit : columns < 2 ^ 31
  pub region_starts : pos 0 ≤ℤ region.start
  pub region_order : region.start ≤ℤ region.end
  pub region_ends : region.end ≤ℤ pos lines
  pub here : IsInside lines columns point
  pub saved_in : IsInside lines columns saved
  pub other_lines : other.lines ≡ lines
  pub other_columns : other.columns ≡ columns
  pub other_here : IsInside lines columns other.cursor.point
  pub other_saved : IsInside lines columns other.saved_cursor.point

module _ {x : External} where
  abbrev pub OnScreen : Term x → Type 0
  OnScreen self =
      IsOnScreen self.grid.lines self.grid.columns self.scroll_region self.grid.cursor.point
        self.grid.saved_cursor.point self.inactive_grid

module _ {T C : Type 0} {lines columns : ℕ} {region : Region} {point saved : Point}
    {other : Grid T C} where
  -- The cursor moves to another point of the screen.
  pub at :
      (point' : Point)
      → IsOnScreen lines columns region point saved other
      → IsInside lines columns point'
      → IsOnScreen lines columns region point' saved other
  at point' w i = record {
    some_line = w.some_line;
    some_column = w.some_column;
    wide_column = w.wide_column;
    lines_fit = w.lines_fit;
    columns_fit = w.columns_fit;
    region_starts = w.region_starts;
    region_order = w.region_order;
    region_ends = w.region_ends;
    here = i;
    saved_in = w.saved_in;
    other_lines = w.other_lines;
    other_columns = w.other_columns;
    other_here = w.other_here;
    other_saved = w.other_saved;
  }

  pub swap_saved :
      {saved' : Point}
      → IsOnScreen lines columns region point saved other
      → IsInside lines columns saved'
      → IsOnScreen lines columns region point saved' other
  swap_saved w i = record {
    some_line = w.some_line;
    some_column = w.some_column;
    wide_column = w.wide_column;
    lines_fit = w.lines_fit;
    columns_fit = w.columns_fit;
    region_starts = w.region_starts;
    region_order = w.region_order;
    region_ends = w.region_ends;
    here = w.here;
    saved_in = i;
    other_lines = w.other_lines;
    other_columns = w.other_columns;
    other_here = w.other_here;
    other_saved = w.other_saved;
  }

  pub with_region :
      {region' : Region}
      → IsOnScreen lines columns region point saved other
      → pos 0 ≤ℤ region'.start
      → region'.start ≤ℤ region'.end
      → region'.end ≤ℤ pos lines
      → IsOnScreen lines columns region' point saved other
  with_region w h k l = record {
    some_line = w.some_line;
    some_column = w.some_column;
    wide_column = w.wide_column;
    lines_fit = w.lines_fit;
    columns_fit = w.columns_fit;
    region_starts = h;
    region_order = k;
    region_ends = l;
    here = w.here;
    saved_in = w.saved_in;
    other_lines = w.other_lines;
    other_columns = w.other_columns;
    other_here = w.other_here;
    other_saved = w.other_saved;
  }

  pub region_nonneg : IsOnScreen lines columns region point saved other → pos 0 ≤ℤ region.end
  region_nonneg w = omega (arith, w)

bottom_lem : (n : ℕ) → 0 < n → n < 2 ^ 31 → i32_of n -ᵢ pos 1 ≡ pos (n - 1)
unfolding i32_of ◌-ᵢ◌ i32_wrap
bottom_lem n h k = ground arith

region_lem :
    (z : ℤ) (n : ℕ) → 0 < n → n < 2 ^ 31 → pos 0 ≤ℤ z → z ≤ℤ pos n → z -ᵢ pos 1 ≤ℤ pos (n - 1)
unfolding ◌-ᵢ◌ ◌-ℤ◌ i32_wrap
region_lem (pos a) n h k l m = ground arith
region_lem (negsuc a) n h k l m = absurd (omega (arith, l))

clamp_lem :
    (z m : ℤ) (n : ℕ)
    → 0 < n
    → m ≤ℤ pos (n - 1)
    → (pos 0 ≤ℤ max_ℤ (min_ℤ z m) (pos 0))
      × (pos_part (max_ℤ (min_ℤ z m) (pos 0)) + 1 ≤ n + neg_part (max_ℤ (min_ℤ z m) (pos 0)))
clamp_lem z m n h k = ground arith

module _ {x : External} where
  y_bounds-le : (self : Term x) → OnScreen self → (y_bounds self).1 ≤ℤ pos (self.grid.lines - 1)
  unfolding y_bounds bottommost_line
  y_bounds-le self w = elim (Bool-cases (has_mode self Mode.origin)) [
    | inl e ↦ rw e (
        region_lem self.scroll_region.end self.grid.lines w.some_line w.lines_fit (region_nonneg w)
          w.region_ends)
    | inr e ↦ rw (e, bottom_lem self.grid.lines w.some_line w.lines_fit) (omega arith)
  ]

  pub goto-OnScreen :
      (self : Term x) (line : ℤ) (col : ℕ) → OnScreen self → OnScreen (goto self line col)
  unfolding goto damage_cursor last_column
  goto-OnScreen self line col w =
      let (lo, hi) =
        clamp_lem (line +ᵢ (y_bounds self).0) (y_bounds self).1 self.grid.lines w.some_line
          (y_bounds-le self w) in
      at _ w (record { above = lo; below = hi; within = omega (arith, w) })

  pub frame-OnScreen :
      {before after other : Grid (Cell x) x.Charset} (region : Region)
      → SameFrame before after
      → IsOnScreen before.lines before.columns region before.cursor.point before.saved_cursor.point
          other
      → IsOnScreen after.lines after.columns region after.cursor.point after.saved_cursor.point
          other
  frame-OnScreen region f w = rw (f.lines, f.columns, f.cursor, f.saved_cursor) w

  pub scroll_up-OnScreen :
      (self : Term x) (n : ℕ) → OnScreen self → OnScreen (Scroll.scroll_up self n)
  unfolding Scroll.scroll_up Scroll.scroll_up_relative mark_fully_damaged
  scroll_up-OnScreen self n w =
      frame-OnScreen self.scroll_region (scroll_up-SameFrame self.grid _ _) w

  pub column-OnScreen :
      (self : Term x) (column : ℕ)
      → column < self.grid.columns
      → OnScreen self
      → OnScreen (set_column self column)
  column-OnScreen self column h w =
      at _ w (record { above = w.here.above; below = w.here.below; within = h })
