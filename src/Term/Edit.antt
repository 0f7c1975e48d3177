-- ===== src/Term/Edit.antt =====
-- The handlers that change the cells of the cursor's line (velacritty_terminal/src/term/mod.rs).
pub mod Rows
use velacritty.Prelude.{ℕ, ◌+◌, ◌-◌, Bool, true, false, not, Option, none, some, min, if◌then◌else◌}
use velacritty.Prelude.Int.{ℤ, pos}
use velacritty.Prelude.Shifts.{fill, shift_left, shift_right}
use velacritty.Prelude.Word.{usize_add, usize_sub, i32_of}
use velacritty.Index.Ranges.{included}
use velacritty.Grid.Row.{Row}
use velacritty.Grid.Row.Slices.{fill_range, all_mut}
use velacritty.Grid.Storage
use velacritty.Selection
use velacritty.Term.Cell.{Cell, from_color, cell}
use velacritty.Term.External.{External}
use velacritty.Term.State.{Term, damage_line, cursor_point, keep_selection}

pub data LineClearMode : Type 0 where
  clear_right clear_left clear_all : LineClearMode

module _ {x : External} where
  -- `bg.into()`, with the background of the cursor's template.
  abbrev pub blank : Term x → Cell x
  blank self = from_color self.grid.cursor.template.bg

  -- `&mut self.grid[line]`, changed by `f`; a line out of bounds panics.
  unfoldable pub update_row : Term x → ℤ → (Row (Cell x) → Row (Cell x)) → Term x
  update_row self line f = elim (Storage.index self.grid.raw line) [
    | none ↦ self
    | some row ↦ record self {
      grid = record self.grid { raw = Storage.index_mut self.grid.raw line (f row) };
    }
  ]

  unfoldable pub insert_blank_row : ℕ → ℕ → ℕ → Cell x → Row (Cell x) → Row (Cell x)
  insert_blank_row columns source count v row =
      let n = min count (usize_sub columns source) in
      let destination = source + n in
      all_mut row (λ cells.
        fill source destination v (shift_right (columns - destination) source destination cells))

  unfoldable pub insert_blank : Term x → ℕ → Term x
  unfolding update_row
  insert_blank self count =
      let point = cursor_point self in
      let damaged = damage_line self point.line 0 (usize_sub self.grid.columns 1) in
      update_row damaged point.line
        (insert_blank_row self.grid.columns point.column count (blank self))

  unfoldable pub erase_chars : Term x → ℕ → Term x
  unfolding update_row
  erase_chars self count =
      let point = cursor_point self in
      let end = min (usize_add point.column count) self.grid.columns in
      update_row (damage_line self point.line point.column end) point.line
        (λ row. fill_range row point.column end (blank self))

  unfoldable pub delete_chars_row : ℕ → ℕ → ℕ → Cell x → Row (Cell x) → Row (Cell x)
  delete_chars_row columns start count v row =
      let n = min count columns in
      let end = min (start + n) (columns - 1) in
      all_mut row
        (λ cells. fill (columns - n) columns v (shift_left (columns - end) end start cells))

  unfoldable pub delete_chars : Term x → ℕ → Term x
  unfolding update_row
  delete_chars self count =
      let point = cursor_point self in
      let damaged = damage_line self point.line 0 (usize_sub self.grid.columns 1) in
      update_row damaged point.line
        (delete_chars_row self.grid.columns point.column count (blank self))

  -- The columns that are cleared; `none` is the early return.
  unfoldable pub cleared : Term x → LineClearMode → Option (ℕ × ℕ)
  cleared self clear_right =
      if self.grid.cursor.input_needs_wrap
      then none
      else some ((cursor_point self).column, self.grid.columns)
  cleared self clear_left = some (0, usize_add (cursor_point self).column 1)
  cleared self clear_all = some (0, self.grid.columns)

  unfoldable pub clear_columns : Term x → ℕ × ℕ → Term x
  unfolding update_row
  clear_columns self (left, right) =
      let line = (cursor_point self).line in
      let filled =
        update_row (damage_line self line left (usize_sub right 1)) line
          (λ row. fill_range row left right (blank self)) in
      record filled {
        selection =
            keep_selection self
              (λ s. not (Selection.intersects_range s (included line) (included line)));
      }

  unfoldable pub clear_line : Term x → LineClearMode → Term x
  unfolding cleared clear_columns
  clear_line self mode = elim (cleared self mode) [
    | none ↦ self
    | some columns ↦ clear_columns self columns
  ]
