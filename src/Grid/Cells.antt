-- ===== src/Grid/Cells.antt =====
-- The cells of a grid one after the other: `GridIterator` and its relatives (grid/mod.rs).
use velacritty.Prelude.{
  ℕ, ◌+◌, ◌-◌, ◌*◌, Option, none, some, List, get_elem?, leb, ◌==◌, if◌then◌else◌,
}
use velacritty.Prelude.Int.{pos}
use velacritty.Prelude.Word.{i32_of, usize_of, usize_add, usize_sub, ◌+ᵢ◌, ◌-ᵢ◌}
use velacritty.Index.{Point, min_ℤ, last_column, bottommost_line, topmost_line}
use velacritty.Index.Points.{le_point}
use velacritty.Grid.{Grid, dimensions}
use velacritty.Grid.Row
use velacritty.Grid.Storage
use velacritty.Grid.Ranges.{eq_ℤ}

-- A cell with its point.
pub record Indexed {ℓ} (T : Type ℓ) : Type ℓ where
  pub point : Point
  pub cell : T

pub record GridIterator {ℓ} (T C : Type ℓ) : Type ℓ where
  pub grid : Grid T C
  pub point : Point
  pub end : Point

-- The place after a point, line by line.
unfoldable pub forward : ℕ → Point → Point
forward last point =
    if leb last point.column
    then record { line = point.line +ᵢ pos 1; column = 0 }
    else record point { column = usize_add point.column 1 }

unfoldable pub backward : ℕ → Point → Point
backward last point =
    if point.column == 0
    then record { line = point.line -ᵢ pos 1; column = last }
    else record point { column = usize_sub point.column 1 }

module _ {ℓ} {C : Type ℓ} where
  -- `Charsets` is indexed by `CharsetIndex`, a number below four.
  abbrev pub charset : List C → ℕ → Option C
  charset charsets index = get_elem? charsets index

module _ {ℓ} {T C : Type ℓ} where
  -- `Index<Point>`; `none` is the panic out of bounds.
  unfoldable pub index : Grid T C → Point → Option T
  index self point = elim (Storage.index self.raw point.line) [
    | none ↦ none
    | some row ↦ Row.index row point.column
  ]

  -- A write of a cell, through `IndexMut<Line>` and `IndexMut<Column>`.
  unfoldable pub index_mut : Grid T C → Point → T → Grid T C
  index_mut self point cell = elim (Storage.index self.raw point.line) [
    | none ↦ self
    | some row ↦ record self {
      raw = Storage.index_mut self.raw point.line (Row.index_mut row point.column cell);
    }
  ]

  -- A change of the cell at a point.
  unfoldable pub update : Grid T C → Point → (T → T) → Grid T C
  unfolding index index_mut
  update self point f = elim (index self point) [
    | none ↦ self
    | some cell ↦ index_mut self point (f cell)
  ]

  unfoldable pub cursor_cell : Grid T C → Option T
  unfolding index
  cursor_cell self = index self self.cursor.point

  unfoldable pub iter_from : Grid T C → Point → GridIterator T C
  iter_from self point =
      let d = dimensions self in
      record {
        grid = self;
        point = point;
        end = record { line = bottommost_line d; column = last_column d };
      }

  unfoldable pub display_iter : Grid T C → GridIterator T C
  display_iter self =
      let d = dimensions self in
      let start = (pos 0 -ᵢ i32_of self.display_offset) -ᵢ pos 1 in
      let end_line = min_ℤ (start +ᵢ i32_of self.lines) (bottommost_line d) in
      record {
        grid = self;
        point = record { line = start; column = last_column d };
        end = record { line = end_line; column = last_column d };
      }

  -- The cell at the iterator's new place; `none` is the panic, which does not occur inside the grid.
  unfoldable pub at_point : GridIterator T C → Point → Option (Indexed T) × GridIterator T C
  at_point self point = (
    elim (index self.grid point) [
      | none ↦ none
      | some cell ↦ some (record { point = point; cell = cell })
    ],
    record self { point = point },
  )

  unfoldable pub next : GridIterator T C → Option (Indexed T) × GridIterator T C
  unfolding forward at_point
  next self =
      if le_point self.end self.point
      then (none, self)
      else at_point self (forward (last_column (dimensions self.grid)) self.point)

  unfoldable pub prev : GridIterator T C → Option (Indexed T) × GridIterator T C
  unfolding backward at_point
  prev self =
      let d = dimensions self.grid in
      if le_point self.point (record { line = topmost_line d; column = 0 })
      then (none, self)
      else at_point self (backward (last_column d) self.point)

  unfoldable pub size_hint : GridIterator T C → ℕ
  size_hint self =
      let columns = self.grid.columns in
      if le_point self.end self.point
      then 0
      else if eq_ℤ self.point.line self.end.line
      then usize_sub self.end.column self.point.column
      else columns
        - usize_add self.point.column 1
        + usize_sub (usize_of (self.end.line -ᵢ self.point.line)) 1 * columns
        + usize_add self.end.column 1
