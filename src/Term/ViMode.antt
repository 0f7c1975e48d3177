-- ===== src/Term/ViMode.antt =====
-- velacritty_terminal/src/vi_mode.rs: the motions of the vi cursor.
pub mod Motion
use velacritty.Prelude.{
  ℕ, zero, suc, ◌+◌, ◌-◌, ◌/◌, Bool, true, false, not, ◌&&◌, ◌||◌, Option, none, some, List, [],
  ◌∷◌, leb, ltb, ◌==◌, if◌then◌else◌, min,
}
use velacritty.Prelude.Bitflags
use velacritty.Prelude.Int.{ℤ, pos, ltb_ℤ}
use velacritty.Prelude.Word.{i32_of, usize_of, usize_add, usize_sub, ◌+ᵢ◌, ◌-ᵢ◌}
use velacritty.Index.{Point, Direction, min_ℤ, max_ℤ, last_column, topmost_line, bottommost_line}
use velacritty.Index
use velacritty.Index.Lines
use velacritty.Index.Points
use velacritty.Grid.Cells
use velacritty.Grid.Ranges.{eq_ℤ, leb_ℤ}
use velacritty.Grid.Row
use velacritty.Grid.Storage
use velacritty.Selection.{eq_point, eq_side}
use velacritty.Term.Cell.{Cell, cell, space, tab}
use velacritty.Term.External.{External}
use velacritty.Term.Flags
use velacritty.Term.Input.{expand_wide, flags_at}
use velacritty.Term.Mode
use velacritty.Term.Search.{
  bracket_search, contains_char, is_wrap, rounds, semantic_search_left, semantic_search_right,
  wide_spacer,
}
use velacritty.Term.State.{Term, size, has_mode, vi_mode_recompute_selection}
use velacritty.Term.View.{scroll_to_point}

pub data ViMotion : Type 0 where
  up down left right first last first_occupied high middle low : ViMotion
  semantic_left semantic_right semantic_left_end semantic_right_end : ViMotion
  word_left word_right word_left_end word_right_end : ViMotion
  bracket paragraph_up paragraph_down : ViMotion

module _ {x : External} where
  abbrev pub char_at : Term x → Point → ℕ
  char_at term point = elim (Cells.index term.grid point) [ none ↦ 0 | some cell ↦ cell.c ]

  unfoldable pub is_space : Term x → Point → Bool
  is_space term point =
      not (Bitflags.intersects (flags_at term point) wide_spacer)
      && ((char_at term point == space) || (char_at term point == tab))

  unfoldable pub is_boundary : Term x → Point → Direction → Bool
  is_boundary term point direction =
      (leb_ℤ point.line (topmost_line (size term))
        && (point.column == 0)
        && eq_side direction Index.left)
      || (eq_ℤ point.line (bottommost_line (size term))
          && leb term.grid.columns (usize_add point.column 1)
          && eq_side direction Index.right)

  unfoldable pub advance : Term x → Point → Direction → Point
  advance term point Index.left = Points.sub point (size term) Index.grid 1
  advance term point Index.right = Points.add point (size term) Index.grid 1

  -- The first column, from one on, whose cell is no space.
  unfoldable pub first_from : Term x → ℤ → ℕ → ℕ → Option Point
  unfolding is_space
  first_from term line column zero = none
  first_from term line column (suc n) =
      elim (is_space term (record { line = line; column = column })) [
        | true ↦ first_from term line (column + 1) n
        | false ↦ some (record { line = line; column = column })
      ]

  unfoldable pub first_occupied_in_line : Term x → ℤ → Option Point
  unfolding first_from
  first_occupied_in_line term line = first_from term line 0 term.grid.columns

  -- The last of the first columns whose cell is no space.
  unfoldable pub last_before : Term x → ℤ → ℕ → Option Point
  unfolding is_space
  last_before term line zero = none
  last_before term line (suc n) = elim (is_space term (record { line = line; column = n })) [
    | true ↦ last_before term line n
    | false ↦ some (record { line = line; column = n })
  ]

  unfoldable pub last_occupied_in_line : Term x → ℤ → Option Point
  unfolding last_before
  last_occupied_in_line term line = last_before term line term.grid.columns

  abbrev pub or_point : Term x → Option Point → Point → Point
  or_point term none point = point
  or_point term (some found) point = found

  abbrev pub or_origin : Term x → Option Point → Point
  or_origin term found = or_point term found (record { line = pos 0; column = 0 })

  -- `while is_wrap(term, point) { point.line += 1 }`; the lines below the point bound the rounds.
  unfoldable pub past_wraps : Term x → ℕ → Point → Point
  past_wraps term zero point = point
  past_wraps term (suc n) point = elim (is_wrap term point) [
    | true ↦ past_wraps term n (record point { line = point.line +ᵢ pos 1 })
    | false ↦ point
  ]

  abbrev pub lines_below : Term x → ℤ → ℕ
  lines_below term line = usize_of (i32_of term.grid.lines -ᵢ line)

  abbrev pub lines_above : Term x → ℤ → ℕ
  lines_above term line = usize_of (line -ᵢ topmost_line (size term))

  -- `fn last`.
  unfoldable pub last_point : Term x → Point → Point
  unfolding last_occupied_in_line past_wraps
  last_point term from =
      let point = expand_wide term from Index.right in
      let occupied = or_origin term (last_occupied_in_line term point.line) in
      let wrapped = past_wraps term (lines_below term point.line) point in
      if ltb point.column occupied.column
      then occupied
      else if is_wrap term point
      then or_point term (last_occupied_in_line term wrapped.line) wrapped
      else record { line = point.line; column = last_column (size term) }

  -- The first cell with content in the lines above that wrap into one another.
  unfoldable pub occupied_above : Term x → ℕ → ℤ → Option Point → Option Point
  unfolding first_occupied_in_line
  occupied_above term zero line occupied = occupied
  occupied_above term (suc n) line occupied =
      let above = line -ᵢ pos 1 in
      let end : Point = record { line = above; column = last_column (size term) } in
      elim (is_wrap term end) [
        | true ↦
            occupied_above term n above (elim (first_occupied_in_line term above) [
              | none ↦ occupied
              | some found ↦ some found
            ])
        | false ↦ occupied
      ]

  -- The fallback to the next cell with content.
  unfoldable pub occupied_below : Term x → ℕ → ℤ → Point
  unfolding first_occupied_in_line
  occupied_below term zero line = record { line = line; column = last_column (size term) }
  occupied_below term (suc n) line =
      let end : Point = record { line = line; column = last_column (size term) } in
      elim (first_occupied_in_line term line) [
        | some found ↦ found
        | none ↦ elim (is_wrap term end) [
          | true ↦ occupied_below term n (line +ᵢ pos 1)
          | false ↦ end
        ]
      ]

  -- `fn first_occupied`.
  unfoldable pub first_occupied_point : Term x → Point → Point
  unfolding first_occupied_in_line occupied_above occupied_below
  first_occupied_point term from =
      let point = expand_wide term from Index.left in
      let occupied =
        or_point term (first_occupied_in_line term point.line)
          (record { line = point.line; column = last_column (size term) }) in
      if eq_point point occupied
      then or_point term (occupied_above term (lines_above term point.line) point.line none)
          (occupied_below term (lines_below term point.line) point.line)
      else occupied

  -- Skip cells while the next one, or this one, is a space, or is none.
  unfoldable pub skip_next : Term x → Direction → Bool → ℕ → Point → Point
  unfolding is_space is_boundary advance
  skip_next term direction space_next zero point = point
  skip_next term direction space_next (suc n) point =
      let next = advance term point direction in
      let same = if space_next then is_space term next else not (is_space term next) in
      elim (not (is_boundary term point direction) && same) [
        | true ↦ skip_next term direction space_next n next
        | false ↦ point
      ]

  unfoldable pub skip_here : Term x → Direction → Bool → ℕ → Point → Point
  unfolding is_space is_boundary advance
  skip_here term direction space_here zero point = point
  skip_here term direction space_here (suc n) point =
      let same = if space_here then is_space term point else not (is_space term point) in
      elim (not (is_boundary term point direction) && same) [
        | true ↦ skip_here term direction space_here n (advance term point direction)
        | false ↦ point
      ]

  -- Do not expand when currently on a semantic escape char.
  unfoldable pub expand_semantic : Term x → Direction → Point → Point
  expand_semantic term direction point =
      if contains_char term.config.semantic_escape_chars (char_at term point)
        && not (Bitflags.intersects (flags_at term point) wide_spacer)
      then point
      else if eq_side direction Index.left
      then semantic_search_left term point
      else semantic_search_right term point

  -- Assure minimum movement of one cell.
  unfoldable pub step : Term x → Direction → Point → Point
  unfolding is_boundary advance
  step term direction point =
      let next = advance term point direction in
      if is_boundary term point direction
      then point
      else if eq_side direction Index.left
      then expand_wide term next direction
      else next

  unfoldable pub semantic : Term x → Point → Direction → Direction → Point
  unfolding is_boundary expand_semantic step skip_next
  semantic term from direction side =
      let start =
        if not (eq_side direction side) && not (is_boundary term from direction)
        then expand_semantic term direction from
        else from in
      let wide = expand_wide term start direction in
      let moved = step term direction (skip_next term direction true (rounds term) wide) in
      if eq_side direction side && not (is_boundary term moved direction)
      then expand_semantic term direction moved
      else moved

  unfoldable pub word : Term x → Point → Direction → Direction → Point
  unfolding skip_next skip_here
  word term from direction side =
      let point = expand_wide term from direction in
      let n = rounds term in
      if eq_side direction side
      then skip_next term direction false n (skip_next term direction true n point)
      else skip_here term direction true n (skip_here term direction false n point)
