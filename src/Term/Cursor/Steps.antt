-- ===== src/Term/Cursor/Steps.antt =====
-- Each handler that moves the cursor or scrolls keeps the cursor on the screen.
use velacritty.Prelude.{
  ℕ, zero, suc, ◌+◌, ◌-◌, ◌≤◌, ◌<◌, ◌^◌, ◌≡◌, arith, min, ltb, Bool-cases, ◌&&◌, inl, inr,
}
use velacritty.Prelude.Int.{ℤ, pos, negsuc, pos_part, neg_part, ◌≤ℤ◌, ◌-ℤ◌}
use velacritty.Prelude.Word.{usize_of, usize_sub, ◌-ᵢ◌, i32_wrap}
use velacritty.Index.{max_ℤ, last_column}
use velacritty.Term.External.{External}
use velacritty.Grid.Frame.{scroll_down-SameFrame, scroll_up-SameFrame, update-SameFrame}
use velacritty.Term.Mode
use velacritty.Grid.Ranges.{eq_ℤ}
use velacritty.Term.Cell.{cell}
use velacritty.Term.State.{
  Term, damage_cursor, damage_line, mark_fully_damaged, cursor_point, has_mode, set_column,
}
use velacritty.Term.Scroll
use velacritty.Term.Cursor
use velacritty.Term.Cursor.Places.{either-OnScreen}
use velacritty.Term.Cursor.Inside.{OnScreen, at, swap_saved, column-OnScreen, frame-OnScreen}
use velacritty.Term.Cursor.Lines.{
  linefeed-OnScreen, wrapline-OnScreen, next_stop-le, back_tabs-le, forward_tabs-lt,
}

up_lem :
    (z : ℤ) (n : ℕ)
    → 0 < n
    → pos 0 ≤ℤ z
    → pos_part z + 1 ≤ n + neg_part z
    → n < 2 ^ 31
    → (pos 0 ≤ℤ max_ℤ (z -ᵢ pos 1) (pos 0))
      × (pos_part (max_ℤ (z -ᵢ pos 1) (pos 0)) + 1 ≤ n + neg_part (max_ℤ (z -ᵢ pos 1) (pos 0)))
unfolding ◌-ᵢ◌ ◌-ℤ◌ i32_wrap
up_lem (pos a) n h k l m = ground arith
up_lem (negsuc a) n h k l m = absurd (omega (arith, k))

module _ {x : External} where
  pub move_forward-OnScreen :
      (self : Term x) (n : ℕ) → OnScreen self → OnScreen (Cursor.move_forward self n)
  unfolding Cursor.move_forward damage_line last_column
  move_forward-OnScreen self n w = column-OnScreen self _ (omega (arith, w)) w

  pub move_backward-OnScreen :
      (self : Term x) (n : ℕ) → OnScreen self → OnScreen (Cursor.move_backward self n)
  unfolding Cursor.move_backward damage_line
  move_backward-OnScreen self n w = column-OnScreen self _ (omega (arith, w.here)) w

  pub backspace-OnScreen : (self : Term x) → OnScreen self → OnScreen (Cursor.backspace self)
  unfolding Cursor.backspace damage_line
  backspace-OnScreen self w = elim (Bool-cases (ltb 0 (cursor_point self).column)) [
    | inl e ↦ rw e (column-OnScreen self _ (omega (arith, w.here)) w)
    | inr e ↦ rw e w
  ]

  pub carriage_return-OnScreen :
      (self : Term x) → OnScreen self → OnScreen (Cursor.carriage_return self)
  unfolding Cursor.carriage_return damage_line
  carriage_return-OnScreen self w = column-OnScreen self 0 w.some_column w

  pub newline-OnScreen : (self : Term x) → OnScreen self → OnScreen (Cursor.newline self)
  unfolding Cursor.newline
  newline-OnScreen self w =
      let v = linefeed-OnScreen self w in
      elim (Bool-cases (has_mode (Scroll.linefeed self) Mode.line_feed_new_line)) [
        | inl e ↦ rw e (carriage_return-OnScreen (Scroll.linefeed self) v)
        | inr e ↦ rw e v
      ]

  pub write_tab-OnScreen : (self : Term x) → OnScreen self → OnScreen (Cursor.write_tab self)
  unfolding Cursor.write_tab
  write_tab-OnScreen self w =
      frame-OnScreen self.scroll_region (update-SameFrame self.grid (cursor_point self) _) w

  columns-write_tab : (self : Term x) → (Cursor.write_tab self).grid.columns ≡ self.grid.columns
  unfolding Cursor.write_tab
  columns-write_tab self = (update-SameFrame self.grid (cursor_point self) _).columns

  pub put_tabs-OnScreen :
      (self : Term x) (n : ℕ) → OnScreen self → OnScreen (Cursor.put_tabs self n)
  unfolding Cursor.put_tabs
  put_tabs-OnScreen self zero w = w
  put_tabs-OnScreen self (suc n) w =
      let column = (cursor_point self).column in
      let count = self.grid.columns - (column + 1) in
      let stop = Cursor.next_stop self column count in
      let h : stop < (Cursor.write_tab self).grid.columns =
        omega (arith, columns-write_tab self, next_stop-le self column count, w.here) in
      let v = column-OnScreen (Cursor.write_tab self) stop h (write_tab-OnScreen self w) in
      elim (Bool-cases (ltb column self.grid.columns)) [
        | inl e ↦
            rw (Cursor.put_tabs, e)
              (put_tabs-OnScreen (set_column (Cursor.write_tab self) stop) n v)
        | inr e ↦ rw (Cursor.put_tabs, e) w
      ]

  pub back-OnScreen :
      (self : Term x) (n : ℕ) → OnScreen self → OnScreen (Cursor.move_backward_tabs self n)
  unfolding Cursor.move_backward_tabs damage_line
  back-OnScreen self n w =
      column-OnScreen self _ (omega (arith, back_tabs-le self (cursor_point self).column n, w.here))
        w

  pub forward-OnScreen :
      (self : Term x) (n : ℕ) → OnScreen self → OnScreen (Cursor.move_forward_tabs self n)
  unfolding Cursor.move_forward_tabs damage_line
  forward-OnScreen self n w =
      column-OnScreen self _ (forward_tabs-lt self (cursor_point self).column n w.here.within) w

  pub put_tab-OnScreen : (self : Term x) (n : ℕ) → OnScreen self → OnScreen (Cursor.put_tab self n)
  unfolding Cursor.put_tab
  put_tab-OnScreen self n w =
      either-OnScreen self.grid.cursor.input_needs_wrap (Scroll.wrapline self)
        (Cursor.put_tabs self n) (wrapline-OnScreen self w) (put_tabs-OnScreen self n w)

  pub scroll_down-OnScreen :
      (self : Term x) (z : ℤ) (n : ℕ)
      → OnScreen self
      → OnScreen (Scroll.scroll_down_relative self z n)
  unfolding Scroll.scroll_down_relative mark_fully_damaged
  scroll_down-OnScreen self z n w =
      frame-OnScreen self.scroll_region (scroll_down-SameFrame self.grid _ _) w

  pub scroll_up_relative-OnScreen :
      (self : Term x) (z : ℤ) (n : ℕ)
      → OnScreen self
      → OnScreen (Scroll.scroll_up_relative self z n)
  unfolding Scroll.scroll_up_relative mark_fully_damaged
  scroll_up_relative-OnScreen self z n w =
      frame-OnScreen self.scroll_region (scroll_up-SameFrame self.grid _ _) w

  pub reverse_index-OnScreen :
      (self : Term x) → OnScreen self → OnScreen (Scroll.reverse_index self)
  unfolding Scroll.reverse_index Scroll.scroll_down damage_cursor
  reverse_index-OnScreen self w =
      let (lo, hi) =
        up_lem (cursor_point self).line self.grid.lines w.some_line w.here.above w.here.below
          w.lines_fit in
      either-OnScreen (eq_ℤ (cursor_point self).line self.scroll_region.start)
        (Scroll.scroll_down self 1) _ (scroll_down-OnScreen self self.scroll_region.start 1 w)
        (at _ w (record { above = lo; below = hi; within = w.here.within }))

  pub insert_blank_lines-OnScreen :
      (self : Term x) (n : ℕ) → OnScreen self → OnScreen (Scroll.insert_blank_lines self n)
  unfolding Scroll.insert_blank_lines
  insert_blank_lines-OnScreen self n w =
      let z = (cursor_point self).line in
      either-OnScreen (Scroll.contains_line self.scroll_region z)
        (Scroll.scroll_down_relative self z n) self (scroll_down-OnScreen self z n w) w

  pub delete_lines-OnScreen :
      (self : Term x) (n : ℕ) → OnScreen self → OnScreen (Scroll.delete_lines self n)
  unfolding Scroll.delete_lines
  delete_lines-OnScreen self n w =
      let z = (cursor_point self).line in
      let k = min (usize_sub self.grid.lines (usize_of z)) n in
      either-OnScreen (ltb 0 k && Scroll.contains_line self.scroll_region z)
        (Scroll.scroll_up_relative self z k) self (scroll_up_relative-OnScreen self z k w) w

  pub save-OnScreen : (self : Term x) → OnScreen self → OnScreen (Cursor.save_cursor_position self)
  unfolding Cursor.save_cursor_position
  save-OnScreen self w = swap_saved w w.here

  pub restore-OnScreen :
      (self : Term x) → OnScreen self → OnScreen (Cursor.restore_cursor_position self)
  unfolding Cursor.restore_cursor_position damage_cursor
  restore-OnScreen self w = at _ w w.saved_in
