-- ===== src/Term/Cursor/Lines.antt =====
-- Line breaks and tab stops keep the cursor on the screen.
use velacritty.Prelude.{
  ℕ, zero, suc, ◌+◌, ◌-◌, ◌≤◌, ◌<◌, ◌^◌, ◌≡◌, true, false, arith, Bool-cases, inl, inr,
}
use velacritty.Prelude.Int.{ℤ, pos, negsuc, pos_part, neg_part, ◌≤ℤ◌, ◌+ℤ◌, ltb_ℤ}
use velacritty.Prelude.Word.{i32_of, ◌+ᵢ◌, i32_wrap}
use velacritty.Grid.Frame.{update-SameFrame}
use velacritty.Term.External.{External}
use velacritty.Term.Cell.{Cell, cell}
use velacritty.Term.State.{
  set_column, set_line, set_needs_wrap, Term, has_mode, damage_cursor, cursor_point,
}
use velacritty.Term.Scroll
use velacritty.Term.Mode
use velacritty.Prelude.Bitflags
use velacritty.Term.Flags
use velacritty.Grid.Ranges.{eq_ℤ, leb_ℤ}
use velacritty.Term.Cursor.{next_stop, previous_stop, back_tabs, forward_tabs}
use velacritty.Term.Cursor.Inside.{
  OnScreen, at, scroll_up-OnScreen, frame-OnScreen, column-OnScreen,
}

step_lem :
    (z : ℤ) (n : ℕ)
    → n < 2 ^ 31
    → pos 0 ≤ℤ z
    → pos_part z + 1 ≤ n + neg_part z
    → ltb_ℤ (z +ᵢ pos 1) (i32_of n) ≡ true
    → (pos 0 ≤ℤ z +ᵢ pos 1) × (pos_part (z +ᵢ pos 1) + 1 ≤ n + neg_part (z +ᵢ pos 1))
unfolding ◌+ᵢ◌ ◌+ℤ◌ i32_wrap i32_of
step_lem (pos a) n h k l t = ground arith
step_lem (negsuc a) n h k l t = absurd (omega (arith, k))

step_in_region :
    (z e : ℤ) (n : ℕ)
    → n < 2 ^ 31
    → pos 0 ≤ℤ z
    → pos_part z + 1 ≤ n + neg_part z
    → e ≤ℤ pos n
    → leb_ℤ e (z +ᵢ pos 1) ≡ false
    → (pos 0 ≤ℤ z +ᵢ pos 1) × (pos_part (z +ᵢ pos 1) + 1 ≤ n + neg_part (z +ᵢ pos 1))
unfolding ◌+ᵢ◌ ◌+ℤ◌ i32_wrap
step_in_region (pos a) (pos b) n h k l m t = ground arith
step_in_region (pos a) (negsuc b) n h k l m t = ground arith
step_in_region (negsuc a) e n h k l m t = absurd (omega (arith, k))

module _ {x : External} where
  pub linefeed-OnScreen : (self : Term x) → OnScreen self → OnScreen (Scroll.linefeed self)
  unfolding Scroll.linefeed damage_cursor
  linefeed-OnScreen self w =
      elim (Bool-cases (eq_ℤ ((cursor_point self).line +ᵢ pos 1) self.scroll_region.end)) [
        | inl e ↦ rw e (scroll_up-OnScreen self 1 w)
        | inr e ↦
            elim (Bool-cases (ltb_ℤ ((cursor_point self).line +ᵢ pos 1) (i32_of self.grid.lines))) [
              | inl t ↦
                  let (lo, hi) =
                    step_lem (cursor_point self).line self.grid.lines w.lines_fit w.here.above
                      w.here.below t in
                  rw (e, t) (at _ w (record { above = lo; below = hi; within = w.here.within }))
              | inr t ↦ rw (e, t) w
            ]
      ]

  flag-OnScreen :
      (self : Term x) (flag : ℕ) → OnScreen self → OnScreen (Scroll.flag_cursor_cell self flag)
  unfolding Scroll.flag_cursor_cell
  flag-OnScreen self flag w =
      frame-OnScreen self.scroll_region (update-SameFrame self.grid (cursor_point self) _) w

  lines-flag :
      (self : Term x) (flag n k : ℕ)
      → n ≤ self.grid.lines + k
      → n ≤ (Scroll.flag_cursor_cell self flag).grid.lines + k
  unfolding Scroll.flag_cursor_cell
  lines-flag self flag n k h = omega (
    arith,
    h,
    (update-SameFrame self.grid (cursor_point self)
        (λ (cell : Cell x). record cell { flags = Bitflags.insert cell.flags flag })).lines,
  )

  -- To the first column of a line.
  to_start :
      (self : Term x)
      → OnScreen self
      → OnScreen (damage_cursor (set_needs_wrap (set_column self 0) false))
  unfolding damage_cursor
  to_start self w = column-OnScreen self 0 w.some_column w

  to_line :
      (self : Term x) (z : ℤ)
      → pos 0 ≤ℤ z
      → pos_part z + 1 ≤ self.grid.lines + neg_part z
      → OnScreen self
      → OnScreen (set_line (damage_cursor self) z)
  unfolding damage_cursor
  to_line self z h k w = at _ w (record { above = h; below = k; within = w.here.within })

  pub wrapline-OnScreen : (self : Term x) → OnScreen self → OnScreen (Scroll.wrapline self)
  unfolding Scroll.wrapline
  wrapline-OnScreen self w =
      let flagged = Scroll.flag_cursor_cell self Flags.wrapline in
      let v = flag-OnScreen self Flags.wrapline w in
      elim (Bool-cases (has_mode self Mode.line_wrap)) [
        | inr e ↦ rw e w
        | inl e ↦
            elim (Bool-cases (leb_ℤ self.scroll_region.end ((cursor_point self).line +ᵢ pos 1))) [
              | inl t ↦ rw (e, t) (to_start (Scroll.linefeed flagged) (linefeed-OnScreen flagged v))
              | inr t ↦
                  rw (e, t)
                    (let (lo, hi) =
                        step_in_region (cursor_point self).line self.scroll_region.end
                          self.grid.lines w.lines_fit w.here.above w.here.below w.region_ends t in
                      to_start
                        (set_line (damage_cursor flagged) ((cursor_point self).line +ᵢ pos 1))
                        (to_line flagged _ lo (lines-flag self Flags.wrapline _ _ hi) v))
            ]
      ]

  pub next_stop-le :
      (self : Term x) (column count : ℕ) → next_stop self column count ≤ column + count
  unfolding next_stop
  next_stop-le self column zero = omega arith
  next_stop-le self column (suc count) = ground (arith, next_stop-le self (column + 1) count)

  previous_stop-le :
      (self : Term x) (column i : ℕ) → i ≤ column → previous_stop self column i ≤ column
  unfolding previous_stop
  previous_stop-le self column zero h = omega arith
  previous_stop-le self column (suc i) h = ground (arith, previous_stop-le self column i)

  pub back_tabs-le : (self : Term x) (column count : ℕ) → back_tabs self column count ≤ column
  unfolding back_tabs
  back_tabs-le self column zero = omega arith
  back_tabs-le self column (suc count) = ground (
    arith,
    previous_stop-le self column column,
    back_tabs-le self (previous_stop self column column) count,
  )

  pub forward_tabs-lt :
      (self : Term x) (column count : ℕ)
      → column < self.grid.columns
      → forward_tabs self column count < self.grid.columns
  unfolding forward_tabs
  forward_tabs-lt self column zero h = h
  forward_tabs-lt self column (suc count) h =
      let stop = next_stop self column (self.grid.columns - (column + 1)) in
      ground (
        arith,
        next_stop-le self column (self.grid.columns - (column + 1)),
        forward_tabs-lt self stop count,
      )
