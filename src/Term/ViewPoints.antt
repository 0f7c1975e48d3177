-- ===== src/Term/ViewPoints.antt =====
-- `point_to_viewport` and `viewport_to_point` of velacritty_terminal/src/term/mod.rs.
use velacritty.Prelude.{ℕ, ◌<◌, ◌^◌, ◌≡◌, Option, none, some, arith, refl, sym, ap, subst, ◌∙◌}
use velacritty.Prelude.Int.{ℤ, pos, negsuc, ◌+ℤ◌, ◌-ℤ◌}
use velacritty.Prelude.Word.{i32_of, ◌+ᵢ◌, ◌-ᵢ◌, i32_of-eq_pos, i32_wrap_fits, FitsI32, i32_wrap}
use velacritty.Index.{Point}

-- `Point<usize>`: a point of the viewport.
pub record ViewPoint : Type 0 where
  pub line : ℕ
  pub column : ℕ

-- `usize::try_from` of an `i32`.
abbrev pub try_from : ℤ → Option ℕ
try_from (pos n) = some n
try_from (negsuc n) = none

unfoldable pub at_column : ℕ → Option ℕ → Option ViewPoint
at_column column none = none
at_column column (some line) = some (record { line = line; column = column })

unfoldable pub point_to_viewport : ℕ → Point → Option ViewPoint
unfolding at_column
point_to_viewport display_offset point =
    at_column point.column (try_from (point.line +ᵢ i32_of display_offset))

unfoldable pub viewport_to_point : ℕ → ViewPoint → Point
viewport_to_point display_offset point = record {
  line = i32_of point.line -ᵢ i32_of display_offset;
  column = point.column;
}

sub_add_line :
    (line offset : ℕ)
    → line < 2 ^ 31
    → offset < 2 ^ 31
    → i32_of line -ᵢ i32_of offset +ᵢ i32_of offset ≡ pos line
unfolding ◌-ᵢ◌ ◌+ᵢ◌ ◌-ℤ◌ ◌+ℤ◌ i32_wrap
sub_add_line line offset h k = rw (i32_of-eq_pos line h, i32_of-eq_pos offset k) (ground arith)

add_sub_line :
    (line : ℤ) (offset n : ℕ)
    → offset < 2 ^ 31
    → FitsI32 line
    → FitsI32 (line +ℤ pos offset)
    → line +ᵢ i32_of offset ≡ pos n
    → i32_of n -ᵢ i32_of offset ≡ line
unfolding ◌-ᵢ◌ ◌+ᵢ◌ ◌-ℤ◌ ◌+ℤ◌ i32_wrap
add_sub_line line offset n k f g e =
    let sum : line +ℤ pos offset ≡ pos n =
      sym (i32_wrap_fits (line +ℤ pos offset) g)
      ∙ ap (λ o. i32_wrap (line +ℤ o)) (sym (i32_of-eq_pos offset k))
      ∙ e in
    let back : pos n -ℤ pos offset ≡ line = ground arith in
    let small : n < 2 ^ 31 = (subst FitsI32 sum g).0 in
    rw (i32_of-eq_pos n small, i32_of-eq_pos offset k, back) (i32_wrap_fits line f)

shown_at :
    (line : ℤ) (column : ℕ) (shown : ViewPoint)
    → at_column column (try_from line) ≡ some shown
    → (line ≡ pos shown.line) × (shown.column ≡ column)
unfolding at_column
shown_at (pos n) column shown e = (cc e, cc e)
shown_at (negsuc n) column shown e = absurd (cc e)

-- A point of the grid that the viewport shows comes back from its place there, if its line and the
-- line of its place fit in an i32 and the viewport's offset is below 2 ^ 31.
pub viewport_to_point-point_to_viewport :
    (display_offset : ℕ) (point : Point) (shown : ViewPoint)
    → display_offset < 2 ^ 31
    → FitsI32 point.line
    → FitsI32 (point.line +ℤ pos display_offset)
    → point_to_viewport display_offset point ≡ some shown
    → viewport_to_point display_offset shown ≡ point
unfolding point_to_viewport viewport_to_point
viewport_to_point-point_to_viewport offset point shown k f g e =
    let (at, column) = shown_at (point.line +ᵢ i32_of offset) point.column shown e in
    rw (add_sub_line point.line offset shown.line k f g at, column) refl

-- A point of the viewport comes back from the point of the grid that it stands for, if its line and
-- the viewport's offset are below 2 ^ 31.
pub point_to_viewport-viewport_to_point :
    (display_offset : ℕ) (point : ViewPoint)
    → point.line < 2 ^ 31
    → display_offset < 2 ^ 31
    → point_to_viewport display_offset (viewport_to_point display_offset point) ≡ some point
unfolding point_to_viewport viewport_to_point at_column
point_to_viewport-viewport_to_point offset point h k = rw (sub_add_line point.line offset h k) refl
