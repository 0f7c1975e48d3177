-- ===== src/Term/Cursor/Writes.antt =====
-- `input` keeps the cursor on the screen.
use velacritty.Prelude.{
  ℕ, ◌+◌, ◌-◌, ◌<◌, ◌≡◌, ◌∙◌, true, none, some, refl, ap, arith, ltb, leb, Bool-cases,
  if◌then◌else◌, ◌&&◌, not, ◌==◌, inl, inr, ◌∷◌, [],
}
use velacritty.Prelude.Bitflags
use velacritty.Prelude.Int.{pos}
use velacritty.Prelude.Word.{usize_add, ◌-ᵢ◌}
use velacritty.Index.{Point, last_column, topmost_line}
use velacritty.Grid.Ranges.{eq_ℤ}
use velacritty.Grid.Row.Slices.{all_mut}
use velacritty.Prelude.Shifts.{shift_right}
use velacritty.Term.Cell.{cell, space, clear_wide, push_zerowidth}
use velacritty.Term.External.{External}
use velacritty.Term.Flags
use velacritty.Term.Input
use velacritty.Term.Mode
use velacritty.Term.Scroll
use velacritty.Term.State.{
  Term, cursor_point, has_mode, set_column, set_template, damage_cursor, size,
}
use velacritty.Term.Cursor.Inside.{OnScreen, column-OnScreen}
use velacritty.Term.Cursor.Lines.{wrapline-OnScreen}
use velacritty.Term.Cursor.Places.{
  SamePlace, SamePlace-trans, SamePlace-refl, SamePlace-if, SamePlace-OnScreen, either-OnScreen,
  update-SamePlace, template-SamePlace, update_row-SamePlace,
}

module _ {x : External} where
  remove_wide-SamePlace : (self : Term x) → SamePlace self (Input.remove_wide self)
  unfolding Input.remove_wide
  remove_wide-SamePlace self =
      let point = cursor_point self in
      let wide = Bitflags.contains (Input.flags_at self point) Flags.wide_char in
      let right : Point = record point { column = usize_add point.column 1 } in
      let left : Point = record point { column = point.column - 1 } in
      SamePlace-if (wide && ltb point.column (last_column (size self)))
        (update-SamePlace self right (Input.without Flags.wide_char_spacer))
        (SamePlace-if (ltb 0 point.column) (update-SamePlace self left clear_wide)
          (SamePlace-refl self))

  remove_leading-SamePlace : (self : Term x) → SamePlace self (Input.remove_leading self)
  unfolding Input.remove_leading
  remove_leading-SamePlace self =
      let point = cursor_point self in
      let above : Point = record { line = point.line -ᵢ pos 1; column = last_column (size self) } in
      SamePlace-if (leb point.column 1 && not (eq_ℤ point.line (topmost_line (size self))))
        (update-SamePlace self above (Input.without Flags.leading_wide_char_spacer))
        (SamePlace-refl self)

  write_at_cursor-SamePlace :
      (self : Term x) (c : ℕ) → SamePlace self (Input.write_at_cursor self c)
  unfolding Input.write_at_cursor
  write_at_cursor-SamePlace self c =
      let point = cursor_point self in
      let wide =
        Bitflags.intersects (Input.flags_at self point)
          (Flags.wide_char ∷ Flags.wide_char_spacer ∷ []) in
      let removed = Input.remove_leading (Input.remove_wide self) in
      let template = self.grid.cursor.template in
      SamePlace-trans
        (SamePlace-if wide
          (SamePlace-trans (remove_wide-SamePlace self)
            (remove_leading-SamePlace (Input.remove_wide self)))
          (SamePlace-refl self))
        (update-SamePlace (if wide then removed else self) point
          (λ old. record template { c = Input.mapped self c }))

  write_flagged-SamePlace :
      (self : Term x) (flag c : ℕ) → SamePlace self (Input.write_flagged self flag c)
  unfolding Input.write_flagged
  write_flagged-SamePlace self flag c =
      let template = self.grid.cursor.template in
      let flagged =
        set_template self (record template { flags = Bitflags.insert template.flags flag }) in
      let written = Input.write_at_cursor flagged c in
      SamePlace-trans (template-SamePlace self flagged.grid.cursor.template) (
        SamePlace-trans (write_at_cursor-SamePlace flagged c)
          (template-SamePlace written (Input.without flag written.grid.cursor.template)))

  shift_cells-SamePlace : (self : Term x) (n : ℕ) → SamePlace self (Input.shift_cells self n)
  unfolding Input.shift_cells
  shift_cells-SamePlace self n =
      let point = cursor_point self in
      let columns = self.grid.columns in
      SamePlace-if (has_mode self Mode.insert && ltb (usize_add point.column n) columns)
        (update_row-SamePlace self point.line (λ row.
          all_mut row (shift_right (columns - n - point.column) point.column (point.column + n))))
        (SamePlace-refl self)

  advance-OnScreen : (self : Term x) → OnScreen self → OnScreen (Input.advance self)
  unfolding Input.advance
  advance-OnScreen self w =
      elim (Bool-cases (ltb (usize_add (cursor_point self).column 1) self.grid.columns)) [
        | inl e ↦ rw e (column-OnScreen self _ (ground arith) w)
        | inr e ↦ rw e w
      ]

  -- The spacer goes next to a glyph that is not in the last column.
  write_wide-OnScreen :
      (self : Term x) (c : ℕ)
      → (cursor_point self).column + 1 < self.grid.columns
      → OnScreen self
      → OnScreen (Input.write_wide self c)
  unfolding Input.write_wide
  write_wide-OnScreen self c h w =
      let glyph = Input.write_flagged self Flags.wide_char c in
      let same = write_flagged-SamePlace self Flags.wide_char c in
      let v = SamePlace-OnScreen same w in
      let next = usize_add (cursor_point glyph).column 1 in
      let column : (cursor_point glyph).column ≡ (cursor_point self).column =
        ap (λ (p : Point). p.column) same.point in
      let below : next < glyph.grid.columns = omega (arith, column, same.columns, h, w) in
      SamePlace-OnScreen
        (write_flagged-SamePlace (set_column glyph next) Flags.wide_char_spacer space)
        (column-OnScreen glyph next below v)

  -- After a line break the cursor is in the first column.
  column-wrapline :
      (self : Term x)
      → has_mode self Mode.line_wrap ≡ true
      → (cursor_point (Scroll.wrapline self)).column ≡ 0
  unfolding Scroll.wrapline damage_cursor
  column-wrapline self e = rw e refl

  input_wide-OnScreen : (self : Term x) (c : ℕ) → OnScreen self → OnScreen (Input.input_wide self c)
  unfolding Input.input_wide
  input_wide-OnScreen self c w =
      let spacer = Input.write_flagged self Flags.leading_wide_char_spacer space in
      let same = write_flagged-SamePlace self Flags.leading_wide_char_spacer space in
      let broken = wrapline-OnScreen spacer (SamePlace-OnScreen same w) in
      elim (Bool-cases (leb self.grid.columns (usize_add (cursor_point self).column 1))) [
        | inl e ↦ elim (Bool-cases (has_mode self Mode.line_wrap)) [
          | inl m ↦
              let column = column-wrapline spacer (ap (λ b. b Mode.line_wrap) same.mode ∙ m) in
              rw (e, m)
                (advance-OnScreen (Input.write_wide (Scroll.wrapline spacer) c) (
                  write_wide-OnScreen (Scroll.wrapline spacer) c (omega (arith, column, broken))
                    broken))
          | inr m ↦ rw (e, m) w
        ]
        | inr e ↦
            let next : (cursor_point self).column + 1 < self.grid.columns = ground arith in
            rw e (advance-OnScreen (Input.write_wide self c) (write_wide-OnScreen self c next w))
      ]

  input_width-OnScreen :
      (self : Term x) (c width : ℕ) → OnScreen self → OnScreen (Input.input_width self c width)
  unfolding Input.input_width Input.input_zerowidth
  input_width-OnScreen self c width w =
      let wrapped = if self.grid.cursor.input_needs_wrap then Scroll.wrapline self else self in
      let v : OnScreen wrapped =
        either-OnScreen self.grid.cursor.input_needs_wrap (Scroll.wrapline self) self
          (wrapline-OnScreen self w) w in
      let shifted = Input.shift_cells wrapped width in
      let u = SamePlace-OnScreen (shift_cells-SamePlace wrapped width) v in
      either-OnScreen (width == 0) (Input.input_zerowidth self c)
        (if width == 1
          then Input.advance (Input.write_at_cursor shifted c)
          else Input.input_wide shifted c)
        (SamePlace-OnScreen
          (update-SamePlace self
            (record (cursor_point self) { column = Input.zerowidth_column self })
            (λ cell. push_zerowidth cell c))
          w)
        (either-OnScreen (width == 1) (Input.advance (Input.write_at_cursor shifted c))
          (Input.input_wide shifted c)
          (advance-OnScreen (Input.write_at_cursor shifted c)
            (SamePlace-OnScreen (write_at_cursor-SamePlace shifted c) u))
          (input_wide-OnScreen shifted c u))

  pub input-OnScreen : (self : Term x) (c : ℕ) → OnScreen self → OnScreen (Input.input self c)
  unfolding Input.input
  input-OnScreen self c w =
      elim (x.width c)
        as (λ o. OnScreen (elim o [ none ↦ self | some width ↦ Input.input_width self c width ])) [
          | none ↦ w
          | some width ↦ input_width-OnScreen self c width w
        ]
