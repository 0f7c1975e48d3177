-- ===== src/Selection/Rotate.antt =====
-- `Selection::rotate` (velacritty_terminal/src/selection.rs): the selection moves with its text.
use velacritty.Prelude.{Bool, true, false, not, ◌&&◌, ◌||◌, Option, none, some, if◌then◌else◌}
use velacritty.Prelude.Int.{ℤ, pos, ltb_ℤ}
use velacritty.Prelude.Word.{◌-ᵢ◌}
use velacritty.Index.{Dimensions, left, right, min_ℤ, bottommost_line, last_column}
use velacritty.Index.Points.{lt_point}
use velacritty.Grid.{Region}
use velacritty.Grid.Ranges.{eq_ℤ, leb_ℤ}
use velacritty.Selection.{Anchor, Selection, SelectionType, block}

abbrev pub is_block : SelectionType → Bool
is_block block = true
is_block _ = false

abbrev pub in_range : Region → ℤ → Bool
in_range range line = (leb_ℤ range.start line || eq_ℤ range.start (pos 0)) && ltb_ℤ line range.end

-- Rotate start of selection; `none` is the early return.
unfoldable pub rotate_start :
    SelectionType → Dimensions → Region → ℤ → Anchor → Anchor → Option Anchor
unfolding ◌-ᵢ◌
rotate_start ty dimensions range delta start end =
    let line = min_ℤ (start.point.line -ᵢ delta) (bottommost_line dimensions) in
    if in_range range start.point.line
    then if leb_ℤ range.end line && ltb_ℤ end.point.line range.end
      then none
      else if ltb_ℤ line range.start && not (eq_ℤ range.start (pos 0))
      then some (
          if is_block ty
          then record start { point = record start.point { line = range.start } }
          else record { point = record { line = range.start; column = 0 }; side = left })
      else some (record start { point = record start.point { line = line } })
    else some start

-- Rotate end of selection.
unfoldable pub rotate_end :
    SelectionType → Dimensions → Region → ℤ → Anchor → Anchor → Option Anchor
unfolding ◌-ᵢ◌
rotate_end ty dimensions range delta start end =
    let line = min_ℤ (end.point.line -ᵢ delta) (bottommost_line dimensions) in
    if in_range range end.point.line
    then if ltb_ℤ line start.point.line
      then none
      else if leb_ℤ range.end line
      then some (
          if is_block ty
          then record end { point = record end.point { line = range.end -ᵢ pos 1 } }
          else record {
            point = record { line = range.end -ᵢ pos 1; column = last_column dimensions };
            side = right;
          })
      else some (record end { point = record end.point { line = line } })
    else some end

-- The anchors in the order of their points, moved.
unfoldable pub rotate_anchors :
    SelectionType → Dimensions → Region → ℤ → Anchor → Anchor → Option (Anchor × Anchor)
unfolding rotate_start rotate_end
rotate_anchors ty dimensions range delta start end =
    elim (rotate_start ty dimensions range delta start end) [
      | none ↦ none
      | some start' ↦ elim (rotate_end ty dimensions range delta start' end) [
        | none ↦ none
        | some end' ↦ some (start', end')
      ]
    ]

unfoldable pub rotate : Selection → Dimensions → Region → ℤ → Option Selection
unfolding rotate_anchors
rotate self dimensions range delta =
    if lt_point self.end.point self.start.point
    then elim (rotate_anchors self.ty dimensions range delta self.end self.start) [
      | none ↦ none
      | some (first, last) ↦ some (record self { start = last; end = first })
    ]
    else elim (rotate_anchors self.ty dimensions range delta self.start self.end) [
      | none ↦ none
      | some (first, last) ↦ some (record self { start = first; end = last })
    ]
