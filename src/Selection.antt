-- ===== src/Selection.antt =====
-- velacritty_terminal/src/selection.rs: the state of a selection, its emptiness and its lines.
pub mod Emptiness
pub mod Contains
pub mod Rotate
use velacritty.Prelude.{
  ℕ, ◌+◌, ◌-◌, ◌^◌, Bool, true, false, not, ◌&&◌, ◌||◌, Option, none, some, ltb, leb, ◌==◌,
  if◌then◌else◌,
}
use velacritty.Prelude.Int.{ℤ, pos, negsuc, ltb_ℤ}
use velacritty.Prelude.Word.{usize_add, ◌+ᵢ◌, ◌-ᵢ◌}
use velacritty.Index.{Point, Direction, left, right}
use velacritty.Index.Ranges.{Bound, included, excluded, unbounded}
use velacritty.Index.Points.{lt_point}
use velacritty.Grid.Ranges.{eq_ℤ, leb_ℤ}

-- `Side` is the type `Direction`.
pub record Anchor : Type 0 where
  pub point : Point
  pub side : Direction

pub record SelectionRange : Type 0 where
  pub start : Point
  pub end : Point
  pub is_block : Bool

-- `PartialEq for Line` and for points and sides, derived.
unfoldable pub eq_point : Point → Point → Bool
eq_point p q = eq_ℤ p.line q.line && (p.column == q.column)

abbrev pub eq_side : Direction → Direction → Bool
eq_side left left = true
eq_side right right = true
eq_side _ _ = false

unfoldable pub contains : SelectionRange → Point → Bool
contains self point =
    leb_ℤ self.start.line point.line
    && leb_ℤ point.line self.end.line
    && (leb self.start.column point.column
        || (not (eq_ℤ self.start.line point.line) && not self.is_block))
    && (leb point.column self.end.column
        || (not (eq_ℤ self.end.line point.line) && not self.is_block))

pub data SelectionType : Type 0 where
  simple block semantic lines : SelectionType

-- `start` and `end` are those of the field `region`.
pub record Selection : Type 0 where
  pub ty : SelectionType
  pub start : Anchor
  pub end : Anchor

unfoldable pub new : SelectionType → Point → Direction → Selection
new ty location side =
    let anchor : Anchor = record { point = location; side = side } in
    record { ty = ty; start = anchor; end = anchor }

unfoldable pub update : Selection → Point → Direction → Selection
update self point side = record self { end = record { point = point; side = side } }

-- The arm of `Simple`, with the anchors in the order of their points.
unfoldable pub is_empty_simple : Anchor → Anchor → Bool
is_empty_simple start end =
    (eq_point start.point end.point && eq_side start.side end.side)
    || (eq_side start.side right
        && eq_side end.side left
        && eq_ℤ start.point.line end.point.line
        && (usize_add start.point.column 1 == end.point.column))

unfoldable pub is_empty_block : Anchor → Anchor → Bool
is_empty_block start end =
    ((start.point.column == end.point.column) && eq_side start.side end.side)
    || ((usize_add start.point.column 1 == end.point.column)
        && eq_side start.side right
        && eq_side end.side left)
    || ((usize_add end.point.column 1 == start.point.column)
        && eq_side start.side left
        && eq_side end.side right)

unfoldable pub is_empty : Selection → Bool
is_empty self = elim self.ty [
  | simple ↦
      if lt_point self.end.point self.start.point
      then is_empty_simple self.end self.start
      else is_empty_simple self.start self.end
  | block ↦ is_empty_block self.start self.end
  | semantic ↦ false
  | lines ↦ false
]

unfoldable pub range_top : Bound → ℤ
range_top (included line) = line
range_top (excluded line) = line +ᵢ pos 1
range_top unbounded = negsuc (2 ^ 31 - 1)

unfoldable pub range_bottom : Bound → ℤ
range_bottom (included line) = line
range_bottom (excluded line) = line -ᵢ pos 1
range_bottom unbounded = pos (2 ^ 31 - 1)

unfoldable pub intersects_range : Selection → Bound → Bound → Bool
intersects_range self start_bound end_bound =
    let swapped = ltb_ℤ self.end.point.line self.start.point.line in
    let start = if swapped then self.end.point.line else self.start.point.line in
    let end = if swapped then self.start.point.line else self.end.point.line in
    leb_ℤ start (range_bottom end_bound) && leb_ℤ (range_top start_bound) end

-- Whether the start of the selection gets the right side.
unfoldable pub starts_right : Selection → Bool
starts_right self =
    let start = self.start.point in
    let end = self.end.point in
    elim self.ty [
      | block ↦
          ltb end.column start.column || ((start.column == end.column) && ltb_ℤ end.line start.line)
      | _ ↦ lt_point end start
    ]

unfoldable pub include_all : Selection → Selection
include_all self =
    let flipped = starts_right self in
    record self {
      start = record self.start { side = if flipped then right else left };
      end = record self.end { side = if flipped then left else right };
    }
