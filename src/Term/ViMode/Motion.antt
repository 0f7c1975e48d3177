-- ===== src/Term/ViMode/Motion.antt =====
-- `ViModeCursor::motion` and `scroll` (velacritty_terminal/src/vi_mode.rs), and `Term::vi_motion`.
use velacritty.Prelude.{
  ℕ, zero, suc, ◌-◌, ◌/◌, Bool, true, false, not, ◌&&◌, Option, none, some, ◌==◌, if◌then◌else◌,
  min,
}
use velacritty.Prelude.Int.{ℤ, pos, ltb_ℤ}
use velacritty.Prelude.Word.{i32_of, usize_of, usize_add, ◌+ᵢ◌, ◌-ᵢ◌}
use velacritty.Index.{Point, last_column, topmost_line, bottommost_line}
use velacritty.Index
use velacritty.Index.Lines
use velacritty.Grid.Row
use velacritty.Grid.Storage
use velacritty.Term.Cell.{cell}
use velacritty.Term.External.{External}
use velacritty.Term.Input.{expand_wide}
use velacritty.Term.Mode
use velacritty.Term.Search.{bracket_search, is_wrap}
use velacritty.Term.State.{Term, size, has_mode, vi_mode_recompute_selection}
use velacritty.Term.View.{scroll_to_point}
use velacritty.Term.ViMode
use velacritty.Term.ViMode.{
  ViMotion, first_occupied_in_line, first_occupied_point, last_point, lines_above, or_origin,
  or_point, semantic, word,
}

module _ {x : External} where
  unfoldable pub go_left : Term x → Point → Point
  go_left term from =
      let point = expand_wide term from Index.left in
      let wrap_point : Point = record {
        line = point.line -ᵢ pos 1;
        column = last_column (size term);
      } in
      if (point.column == 0)
        && ltb_ℤ (topmost_line (size term)) point.line
        && is_wrap term wrap_point
      then wrap_point
      else record point { column = point.column - 1 }

  unfoldable pub go_right : Term x → Point → Point
  go_right term from =
      let point = expand_wide term from Index.right in
      if is_wrap term point
      then record { line = point.line +ᵢ pos 1; column = 0 }
      else record point { column = min (usize_add point.column 1) (last_column (size term)) }

  -- The lines above bound the rounds.
  unfoldable pub first_loop : Term x → ℕ → Point → Point
  first_loop term zero point = point
  first_loop term (suc n) point =
      let above = point.line -ᵢ pos 1 in
      elim ((point.column == 0)
        && ltb_ℤ (topmost_line (size term)) point.line
        && is_wrap term (record { line = above; column = last_column (size term) })) [
          | true ↦ first_loop term n (record point { line = above })
          | false ↦ point
        ]

  unfoldable pub go_first : Term x → Point → Point
  unfolding first_loop
  go_first term from =
      let point = expand_wide term from Index.left in
      record (first_loop term (lines_above term point.line) point) { column = 0 }

  -- A line, in the column of its first cell with content.
  unfoldable pub in_line : Term x → ℤ → Point
  in_line term line = record {
    line = line;
    column = (or_origin term (first_occupied_in_line term line)).column;
  }

  -- `self.grid()[line].is_clear()`.
  abbrev pub clear_at : Term x → ℤ → Bool
  clear_at term line = elim (Storage.index term.grid.raw line) [
    | none ↦ true
    | some row ↦ Row.is_clear row
  ]

  -- Whether the lines that are skipped are over: `seen` tells that a line with content was there.
  unfoldable pub paragraph_above : Term x → Bool → ℤ → ℕ → Option ℤ
  paragraph_above term seen line zero = none
  paragraph_above term seen line (suc n) =
      let above = line -ᵢ pos 1 in
      elim (seen && clear_at term above) [
        | true ↦ some above
        | false ↦ paragraph_above term (not (clear_at term above)) above n
      ]

  unfoldable pub paragraph_below : Term x → Bool → ℤ → ℕ → Option ℤ
  paragraph_below term seen line zero = none
  paragraph_below term seen line (suc n) = elim (seen && clear_at term line) [
    | true ↦ some line
    | false ↦ paragraph_below term (not (clear_at term line)) (line +ᵢ pos 1) n
  ]

  abbrev pub or_line : Term x → Option ℤ → ℤ → ℤ
  or_line term none line = line
  or_line term (some found) line = found

  abbrev pub lines_to : Term x → ℤ → ℤ → ℕ
  lines_to term first last = if ltb_ℤ first last then usize_of (last -ᵢ first) else 0

  unfoldable pub go_paragraph_up : Term x → Point → Point
  unfolding paragraph_above
  go_paragraph_up term point =
      let top = topmost_line (size term) in
      record {
        line =
            or_line term (paragraph_above term false point.line (lines_to term top point.line)) top;
        column = 0;
      }

  unfoldable pub go_paragraph_down : Term x → Point → Point
  unfolding paragraph_below
  go_paragraph_down term point =
      let bottom = bottommost_line (size term) in
      record {
        line =
            or_line term (paragraph_below term false point.line (lines_to term point.line bottom))
              bottom;
        column = 0;
      }

  -- The point after a motion, before the display is scrolled to it.
  unfoldable pub moved : Term x → ViMotion → Point → Point
  unfolding in_line
  moved term ViMode.up point =
      if ltb_ℤ (topmost_line (size term)) point.line
      then record point { line = point.line -ᵢ pos 1 }
      else point
  moved term ViMode.down point =
      if ltb_ℤ (point.line +ᵢ pos 1) (i32_of term.grid.lines)
      then record point { line = point.line +ᵢ pos 1 }
      else point
  moved term ViMode.left point = go_left term point
  moved term ViMode.right point = go_right term point
  moved term ViMode.first point = go_first term point
  moved term ViMode.last point = last_point term point
  moved term ViMode.first_occupied point = first_occupied_point term point
  moved term ViMode.high point = in_line term (pos 0 -ᵢ i32_of term.grid.display_offset)
  moved term ViMode.middle point =
      in_line term
        (((pos 0 -ᵢ i32_of term.grid.display_offset) +ᵢ i32_of (term.grid.lines / 2)) -ᵢ pos 1)
  moved term ViMode.low point =
      in_line term (((pos 0 -ᵢ i32_of term.grid.display_offset) +ᵢ i32_of term.grid.lines) -ᵢ pos 1)
  moved term ViMode.semantic_left point = semantic term point Index.left Index.left
  moved term ViMode.semantic_right point = semantic term point Index.right Index.left
  moved term ViMode.semantic_left_end point = semantic term point Index.left Index.right
  moved term ViMode.semantic_right_end point = semantic term point Index.right Index.right
  moved term ViMode.word_left point = word term point Index.left Index.left
  moved term ViMode.word_right point = word term point Index.right Index.left
  moved term ViMode.word_left_end point = word term point Index.left Index.right
  moved term ViMode.word_right_end point = word term point Index.right Index.right
  moved term ViMode.bracket point = or_point term (bracket_search term point) point
  moved term ViMode.paragraph_up point = go_paragraph_up term point
  moved term ViMode.paragraph_down point = go_paragraph_down term point

  -- `Term::vi_motion`, which moves the vi cursor by `ViModeCursor::motion`.
  unfoldable pub vi_motion : Term x → ViMotion → Term x
  unfolding moved
  vi_motion self motion =
      let point = moved self motion self.vi_mode_cursor in
      if has_mode self Mode.vi
      then vi_mode_recompute_selection
          (record (scroll_to_point self point) { vi_mode_cursor = point })
      else self

  -- `ViModeCursor::scroll`.
  unfoldable pub scroll : Term x → Point → ℤ → Point
  unfolding in_line
  scroll term point lines =
      in_line term (Lines.grid_clamp (point.line -ᵢ lines) (size term) Index.grid)
