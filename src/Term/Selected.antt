-- ===== src/Term/Selected.antt =====
-- `Selection::to_range`: the cells that a selection stands for (velacritty_terminal/src/selection.rs).
use velacritty.Prelude.{
  ℕ, ◌-◌, true, false, not, ◌&&◌, ◌||◌, Option, none, some, ltb, ◌==◌, if◌then◌else◌,
}
use velacritty.Prelude.Int.{pos, ltb_ℤ}
use velacritty.Prelude.Word.{usize_add, usize_sub, ◌+ᵢ◌, ◌-ᵢ◌}
use velacritty.Index.{Point, Dimensions, topmost_line}
use velacritty.Index
use velacritty.Index.Points.{lt_point, grid_clamp}
use velacritty.Grid.Ranges.{eq_ℤ}
use velacritty.Selection.{
  Anchor, Selection, SelectionRange, simple, block, semantic, lines, eq_point, eq_side, is_empty,
}
use velacritty.Term.External.{External}
use velacritty.Term.Search.{
  bracket_search, semantic_search_left, semantic_search_right, line_search_left, line_search_right,
}
use velacritty.Term.State.{Term, size}

-- Remove last cell if selection ends to the left of a cell.
unfoldable pub simple_end : Anchor → Anchor → ℕ → Point
simple_end start end columns =
    if eq_side end.side Index.left && not (eq_point start.point end.point)
    then (if end.point.column == 0
        then record { line = end.point.line -ᵢ pos 1; column = usize_sub columns 1 }
        else record end.point { column = usize_sub end.point.column 1 })
    else end.point

-- Remove first cell if selection starts at the right of a cell.
unfoldable pub simple_start : Anchor → Point → ℕ → Point
simple_start start end columns =
    let next = usize_add start.point.column 1 in
    if eq_side start.side Index.right && not (eq_point start.point end)
    then (if next == columns
        then record { line = start.point.line +ᵢ pos 1; column = 0 }
        else record start.point { column = next })
    else start.point

unfoldable pub range_simple : Selection → Anchor → Anchor → ℕ → Option SelectionRange
unfolding simple_start simple_end
range_simple self start end columns =
    let end' = simple_end start end columns in
    if is_empty self
    then none
    else some (record { start = simple_start start end' columns; end = end'; is_block = false })

-- The cells of a block whose anchors stand from the top left to the bottom right.
unfoldable pub block_range : Anchor → Anchor → SelectionRange
block_range start end =
    let end' : Point =
      if eq_side end.side Index.left
        && not (eq_point start.point end.point)
        && ltb 0 end.point.column
      then record end.point { column = end.point.column - 1 }
      else end.point in
    let start' : Point =
      if eq_side start.side Index.right && not (eq_point start.point end')
      then record start.point { column = usize_add start.point.column 1 }
      else start.point in
    record { start = start'; end = end'; is_block = true }

unfoldable pub range_block : Selection → Anchor → Anchor → Option SelectionRange
unfolding block_range
range_block self start end =
    let start' : Anchor = record {
      point = record start.point { column = end.point.column };
      side = end.side;
    } in
    let end' : Anchor = record {
      point = record end.point { column = start.point.column };
      side = start.side;
    } in
    if is_empty self
    then none
    else if ltb end.point.column start.point.column
    then some (block_range start' end')
    else some (block_range start end)

-- Between a bracket and the one that matches it.
abbrev pub bracketed : Point → Point → SelectionRange
bracketed start matching =
    if (eq_ℤ matching.line start.line && ltb matching.column start.column)
      || ltb_ℤ matching.line start.line
    then record { start = matching; end = start; is_block = false }
    else record { start = start; end = matching; is_block = false }

module _ {x : External} where
  abbrev pub words : Term x → Point → Point → SelectionRange
  words term start end = record {
    start = semantic_search_left term start;
    end = semantic_search_right term end;
    is_block = false;
  }

  unfoldable pub range_semantic : Term x → Point → Point → SelectionRange
  range_semantic term start end =
      if eq_point start end
      then elim (bracket_search term start) [
        | none ↦ words term start end
        | some matching ↦ bracketed start matching
      ]
      else words term start end

  unfoldable pub range_lines : Term x → Point → Point → SelectionRange
  range_lines term start end = record {
    start = line_search_left term start;
    end = line_search_right term end;
    is_block = false;
  }

  -- The anchors in the order of their points, and inside the grid.
  unfoldable pub clamped_range : Selection → Term x → Anchor → Anchor → Option SelectionRange
  unfolding range_simple range_block range_semantic range_lines
  clamped_range self term start end =
      let d = size term in
      let start' : Anchor = record start { point = grid_clamp start.point d Index.grid } in
      let end' : Anchor = record end { point = grid_clamp end.point d Index.grid } in
      if ltb_ℤ end.point.line (topmost_line d) then none else elim self.ty [
        | simple ↦ range_simple self start' end' term.grid.columns
        | block ↦ range_block self start' end'
        | semantic ↦ some (range_semantic term start'.point end'.point)
        | lines ↦ some (range_lines term start'.point end'.point)
      ]

  unfoldable pub to_range : Selection → Term x → Option SelectionRange
  unfolding clamped_range
  to_range self term =
      if lt_point self.end.point self.start.point
      then clamped_range self term self.end self.start
      else clamped_range self term self.start self.end
