-- ===== src/Index/Points.antt =====
-- `impl Point` of velacritty_terminal/src/index.rs, and the order of points.
use Prim.Native.Nat.{compare, Ordering}
use velacritty.Prelude.{ℕ, ◌+◌, ◌-◌, ◌/◌, ◌%◌, min, Bool, true, false, if◌then◌else◌}
use velacritty.Prelude.Int.{ℤ, pos, pos_part, neg_part, ltb_ℤ}
use velacritty.Prelude.Word.{i32_of, usize_add, usize_sub, ◌+ᵢ◌, ◌-ᵢ◌}
use velacritty.Index.{
  Boundary, cursor, grid, unbounded, Point, Dimensions, last_column, topmost_line, bottommost_line,
}
use velacritty.Index.Lines

-- The arms that both `Boundary::Cursor` and `Boundary::Grid` have.
below_bottom : Point → Dimensions → Point
below_bottom p d =
    if ltb_ℤ (bottommost_line d) p.line
    then record { line = bottommost_line d; column = last_column d }
    else p

clamp_line : Point → Dimensions → Boundary → Point
unfolding below_bottom
clamp_line p d cursor =
    if ltb_ℤ p.line (pos 0) then record { line = pos 0; column = 0 } else below_bottom p d
clamp_line p d grid =
    if ltb_ℤ p.line (topmost_line d)
    then record { line = topmost_line d; column = 0 }
    else below_bottom p d
clamp_line p d unbounded = record p { line = Lines.grid_clamp p.line d unbounded }

unfoldable pub grid_clamp : Point → Dimensions → Boundary → Point
unfolding clamp_line
grid_clamp p d boundary = clamp_line (record p { column = min p.column (last_column d) }) d boundary

-- A screen with no column panics in `/` and `%`.
unfoldable pub sub : Point → Dimensions → Boundary → ℕ → Point
sub p d boundary rhs =
    let cols = d.columns in
    let line_changes = (usize_sub (usize_add rhs cols) 1 - p.column) / cols in
    grid_clamp
      (record {
        line = p.line -ᵢ i32_of line_changes;
        column = usize_sub (usize_add cols p.column) (rhs % cols) % cols;
      })
      d boundary

unfoldable pub add : Point → Dimensions → Boundary → ℕ → Point
add p d boundary rhs =
    let cols = d.columns in
    grid_clamp
      (record {
        line = p.line +ᵢ i32_of (usize_add rhs p.column / cols);
        column = usize_add p.column rhs % cols;
      })
      d boundary

-- `Ord for Point`: by line, then by column.
abbrev pub compare_lines : ℤ → ℤ → Ordering
compare_lines a b = compare (pos_part a + neg_part b) (pos_part b + neg_part a)

unfoldable pub cmp : Point → Point → Ordering
cmp p q = elim (compare_lines p.line q.line) [
  | Ordering.eq ↦ compare p.column q.column
  | Ordering.lt ↦ Ordering.lt
  | Ordering.gt ↦ Ordering.gt
]

-- `p < q` and `p <= q`.
abbrev pub lt_point : Point → Point → Bool
lt_point p q = elim (cmp p q) [ Ordering.lt ↦ true | _ ↦ false ]

abbrev pub le_point : Point → Point → Bool
le_point p q = elim (cmp p q) [ Ordering.gt ↦ false | _ ↦ true ]
