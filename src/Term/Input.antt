-- ===== src/Term/Input.antt =====
-- `Term::input`: a character is written at the cursor (velacritty_terminal/src/term/mod.rs).
use velacritty.Prelude.{
  ℕ, ◌+◌, ◌-◌, true, not, ◌&&◌, none, some, [], ◌∷◌, ltb, leb, ◌==◌, min, if◌then◌else◌,
}
use velacritty.Prelude.Bitflags
use velacritty.Prelude.Int.{pos}
use velacritty.Prelude.Shifts.{shift_right}
use velacritty.Prelude.Word.{usize_add, usize_sub, ◌+ᵢ◌, ◌-ᵢ◌}
use velacritty.Index.{Point, Dimensions, Direction, last_column, topmost_line}
use velacritty.Index
use velacritty.Index.Points
use velacritty.Grid.Cells
use velacritty.Grid.Ranges.{eq_ℤ}
use velacritty.Grid.Row.Slices.{all_mut}
use velacritty.Term.Cell.{Cell, cell, space, clear_wide, push_zerowidth}
use velacritty.Term.Edit.{update_row}
use velacritty.Term.External.{External}
use velacritty.Term.Flags
use velacritty.Term.Mode
use velacritty.Term.Scroll.{wrapline}
use velacritty.Term.State.{
  Term, size, has_mode, cursor_point, set_column, set_needs_wrap, set_template,
}

module _ {x : External} where
  -- A change of the cell at a point.
  abbrev pub update : Term x → Point → (Cell x → Cell x) → Term x
  update self point f = record self { grid = Cells.update self.grid point f }

  abbrev pub flags_at : Term x → Point → Bitflags.Bits
  flags_at self point = elim (Cells.index self.grid point) [
    | none ↦ Bitflags.empty
    | some cell ↦ cell.flags
  ]

  abbrev pub without : ℕ → Cell x → Cell x
  without flag cell = record cell { flags = Bitflags.remove cell.flags flag }

  -- Remove wide char and spacer.
  unfoldable pub remove_wide : Term x → Term x
  remove_wide self =
      let point = cursor_point self in
      let wide = Bitflags.contains (flags_at self point) Flags.wide_char in
      if wide && ltb point.column (last_column (size self))
      then update self (record point { column = usize_add point.column 1 })
          (without Flags.wide_char_spacer)
      else if ltb 0 point.column
      then update self (record point { column = point.column - 1 }) clear_wide
      else self

  -- Remove leading spacers.
  unfoldable pub remove_leading : Term x → Term x
  remove_leading self =
      let point = cursor_point self in
      if leb point.column 1 && not (eq_ℤ point.line (topmost_line (size self)))
      then update self (record { line = point.line -ᵢ pos 1; column = last_column (size self) })
          (without Flags.leading_wide_char_spacer)
      else self

  -- The character as the active character set has it.
  abbrev pub mapped : Term x → ℕ → ℕ
  mapped self c = elim (Cells.charset self.grid.cursor.charsets self.active_charset) [
    | none ↦ c
    | some charset ↦ x.map_char charset c
  ]

  unfoldable pub write_at_cursor : Term x → ℕ → Term x
  unfolding remove_wide remove_leading
  write_at_cursor self c =
      let template = self.grid.cursor.template in
      let point = cursor_point self in
      let wide =
        Bitflags.intersects (flags_at self point) (Flags.wide_char ∷ Flags.wide_char_spacer ∷ []) in
      let cleared = if wide then remove_leading (remove_wide self) else self in
      update cleared point (λ old. record template { c = mapped self c })

  -- Where a character without a width goes.
  unfoldable pub zerowidth_column : Term x → ℕ
  zerowidth_column self =
      let point = cursor_point self in
      let column = if self.grid.cursor.input_needs_wrap then point.column else point.column - 1 in
      let flags = flags_at self (record point { column = column }) in
      if Bitflags.contains flags Flags.wide_char_spacer then column - 1 else column

  unfoldable pub input_zerowidth : Term x → ℕ → Term x
  unfolding zerowidth_column
  input_zerowidth self c =
      update self (record (cursor_point self) { column = zerowidth_column self })
        (λ cell. push_zerowidth cell c)

  -- If in insert mode, first shift cells to the right.
  unfoldable pub shift_cells : Term x → ℕ → Term x
  unfolding update_row
  shift_cells self width =
      let point = cursor_point self in
      let columns = self.grid.columns in
      if has_mode self Mode.insert && ltb (usize_add point.column width) columns
      then update_row self point.line (λ row.
        all_mut row
          (shift_right (columns - width - point.column) point.column (point.column + width)))
      else self

  -- A write while the template has a flag more.
  unfoldable pub write_flagged : Term x → ℕ → ℕ → Term x
  unfolding write_at_cursor
  write_flagged self flag c =
      let template = self.grid.cursor.template in
      let flagged =
        set_template self (record template { flags = Bitflags.insert template.flags flag }) in
      let written = write_at_cursor flagged c in
      set_template written (without flag written.grid.cursor.template)

  -- The fullwidth glyph and its spacer.
  unfoldable pub write_wide : Term x → ℕ → Term x
  unfolding write_flagged
  write_wide self c =
      let glyph = write_flagged self Flags.wide_char c in
      let next = set_column glyph (usize_add (cursor_point glyph).column 1) in
      write_flagged next Flags.wide_char_spacer space

  -- The cursor moves on, or waits for the next line.
  unfoldable pub advance : Term x → Term x
  advance self =
      let next = usize_add (cursor_point self).column 1 in
      if ltb next self.grid.columns then set_column self next else set_needs_wrap self true

  -- `input` for a character that takes two cells.
  unfoldable pub input_wide : Term x → ℕ → Term x
  unfolding write_flagged write_wide advance
  input_wide self c =
      let spaced = wrapline (write_flagged self Flags.leading_wide_char_spacer space) in
      if leb self.grid.columns (usize_add (cursor_point self).column 1)
      then (if has_mode self Mode.line_wrap
          then advance (write_wide spaced c)
          else set_needs_wrap self true)
      else advance (write_wide self c)

  unfoldable pub input_width : Term x → ℕ → ℕ → Term x
  unfolding input_zerowidth shift_cells write_at_cursor advance input_wide
  input_width self c width =
      let wrapped = if self.grid.cursor.input_needs_wrap then wrapline self else self in
      let shifted = shift_cells wrapped width in
      if width == 0
      then input_zerowidth self c
      else if width == 1
      then advance (write_at_cursor shifted c)
      else input_wide shifted c

  unfoldable pub input : Term x → ℕ → Term x
  unfolding input_width
  input self c = elim (x.width c) [ none ↦ self | some width ↦ input_width self c width ]

  -- `Direction::Left` of `expand_wide`.
  unfoldable pub expand_left : Term x → Point → Bitflags.Bits → Point
  expand_left self point flags =
      let start : Point =
        if Bitflags.contains flags Flags.wide_char_spacer
        then record point { column = usize_sub point.column 1 }
        else point in
      let before = Points.sub start (size self) Index.grid 1 in
      if Bitflags.intersects flags (Flags.wide_char ∷ Flags.wide_char_spacer ∷ [])
      then (if Bitflags.contains (flags_at self before) Flags.leading_wide_char_spacer
          then before
          else start)
      else point

  unfoldable pub expand_right : Term x → Point → Bitflags.Bits → Point
  expand_right self point flags =
      if Bitflags.contains flags Flags.leading_wide_char_spacer
      then record { line = point.line +ᵢ pos 1; column = 1 }
      else if Bitflags.contains flags Flags.wide_char
      then record point { column = min (usize_add point.column 1) (last_column (size self)) }
      else point

  unfoldable pub expand_wide : Term x → Point → Direction → Point
  unfolding expand_left expand_right
  expand_wide self point Index.left = expand_left self point (flags_at self point)
  expand_wide self point Index.right = expand_right self point (flags_at self point)
