-- ===== src/Term/Search.antt =====
-- velacritty_terminal/src/term/search.rs: the searches along the cells that need no pattern.
pub mod Wrapped
use velacritty.Prelude.{
  ℕ, zero, suc, ◌+◌, ◌-◌, ◌*◌, Bool, true, false, not, ◌&&◌, Option, none, some, List, [], ◌∷◌,
  ◌==◌, if◌then◌else◌, length,
}
use velacritty.Prelude.Bitflags
use velacritty.Prelude.Int.{ℤ, pos, ltb_ℤ}
use velacritty.Prelude.Word.{i32_of, usize_of, usize_sub, ◌+ᵢ◌, ◌-ᵢ◌}
use velacritty.Index.{Point, max_ℤ, last_column, topmost_line}
use velacritty.Grid.Cells
use velacritty.Grid.Cells.{GridIterator, Indexed, iter_from}
use velacritty.Term.Cell.{Cell}
use velacritty.Term.External.{External}
use velacritty.Term.Flags
use velacritty.Term.Input.{flags_at}
use velacritty.Term.State.{Term, size}

-- `Result<Point, Point>`.
pub data Found : Type 0 where
  ok err : Point → Found

abbrev pub bracket_pairs : List (ℕ × ℕ)
bracket_pairs = (40, 41) ∷ (91, 93) ∷ (123, 125) ∷ (60, 62) ∷ []

-- The direction and the character to look for.
unfoldable pub matching : ℕ → List (ℕ × ℕ) → Option (Bool × ℕ)
matching c [] = none
matching c ((open_char, close_char) ∷ pairs) =
    let rest = matching c pairs in
    if open_char == c
    then some (true, close_char)
    else if close_char == c
    then some (false, open_char)
    else rest

-- `str::contains` of a character.
abbrev pub contains_char : List ℕ → ℕ → Bool
contains_char [] c = false
contains_char (needle ∷ needles) c = if needle == c then true else contains_char needles c

abbrev pub wide_spacer : List ℕ
wide_spacer = Flags.wide_char_spacer ∷ Flags.leading_wide_char_spacer ∷ []

-- The nesting of the brackets after a cell.
abbrev pub nesting : ℕ → ℕ → ℕ → ℕ → ℕ
nesting start_char end_char c skip_pairs =
    if c == start_char then skip_pairs + 1 else if c == end_char then skip_pairs - 1 else skip_pairs

module _ {x : External} where
  -- More rounds than the grid has cells.
  abbrev pub rounds : Term x → ℕ
  rounds self = length self.grid.raw.inner * self.grid.columns + 1

  abbrev pub is_wrap : Term x → Point → Bool
  is_wrap self point = Bitflags.contains (flags_at self point) Flags.wrapline

  abbrev pub wraps : Cell x → Bool
  wraps cell = Bitflags.contains cell.flags Flags.wrapline

  -- A cell that is no spacer and has one of the characters.
  abbrev pub hits : List ℕ → Cell x → Bool
  hits needles cell =
      not (Bitflags.intersects cell.flags wide_spacer) && contains_char needles cell.c

  unfoldable pub bracket_loop :
      ℕ → Bool → ℕ → ℕ → ℕ → GridIterator (Cell x) x.Charset → Option Point
  bracket_loop zero forward start_char end_char skip_pairs iter = none
  bracket_loop (suc n) forward start_char end_char skip_pairs iter =
      let (cell, iter') = if forward then Cells.next iter else Cells.prev iter in
      elim cell [
        | none ↦ none
        | some indexed ↦
            let c = indexed.cell.c in
            elim ((c == end_char) && (skip_pairs == 0)) [
              | true ↦ some indexed.point
              | false ↦
                  bracket_loop n forward start_char end_char
                    (nesting start_char end_char c skip_pairs) iter'
            ]
      ]

  unfoldable pub bracket_search : Term x → Point → Option Point
  unfolding bracket_loop matching
  bracket_search self point = elim (Cells.index self.grid point) [
    | none ↦ none
    | some start ↦ elim (matching start.c bracket_pairs) [
      | none ↦ none
      | some (forward, end_char) ↦
          bracket_loop (rounds self) forward start.c end_char 0 (iter_from self.grid point)
    ]
  ]

  unfoldable pub left_loop : ℕ → ℕ → List ℕ → Point → GridIterator (Cell x) x.Charset → Found
  left_loop zero last needles point iter = err point
  left_loop (suc n) last needles point iter =
      let (cell, iter') = Cells.prev iter in
      elim cell [
        | none ↦ err point
        | some indexed ↦ elim ((indexed.point.column == last) && not (wraps indexed.cell)) [
          | true ↦ err point
          | false ↦ elim (hits needles indexed.cell) [
            | true ↦ ok indexed.point
            | false ↦ left_loop n last needles indexed.point iter'
          ]
        ]
      ]

  -- The starting point on a line of the grid.
  abbrev pub limited : Term x → Point → Point
  limited self point = record point { line = max_ℤ point.line (topmost_line (size self)) }

  unfoldable pub inline_search_left : Term x → Point → List ℕ → Found
  unfolding left_loop
  inline_search_left self point needles =
      let start = limited self point in
      left_loop (rounds self) (usize_sub self.grid.columns 1) needles start
        (iter_from self.grid start)

  unfoldable pub right_loop : ℕ → ℕ → List ℕ → Point → GridIterator (Cell x) x.Charset → Found
  right_loop zero last needles point iter = err point
  right_loop (suc n) last needles point iter =
      let (cell, iter') = Cells.next iter in
      elim cell [
        | none ↦ err point
        | some indexed ↦ elim (hits needles indexed.cell) [
          | true ↦ ok indexed.point
          | false ↦ elim ((indexed.point.column == last) && not (wraps indexed.cell)) [
            | true ↦ err indexed.point
            | false ↦ right_loop n last needles indexed.point iter'
          ]
        ]
      ]

  unfoldable pub inline_search_right : Term x → Point → List ℕ → Found
  unfolding right_loop
  inline_search_right self point needles =
      let start = limited self point in
      let last = usize_sub self.grid.columns 1 in
      if (start.column == last) && not (is_wrap self start)
      then err start
      else right_loop (rounds self) last needles start (iter_from self.grid start)

  -- `iter_from(point).find(|cell| !cell.flags.intersects(wide_spacer))`.
  unfoldable pub find_no_spacer : ℕ → Point → GridIterator (Cell x) x.Charset → Point
  find_no_spacer zero point iter = point
  find_no_spacer (suc n) point iter =
      let (cell, iter') = Cells.next iter in
      elim cell [
        | none ↦ point
        | some indexed ↦ elim (Bitflags.intersects indexed.cell.flags wide_spacer) [
          | true ↦ find_no_spacer n point iter'
          | false ↦ indexed.point
        ]
      ]

  unfoldable pub semantic_search_left : Term x → Point → Point
  unfolding inline_search_left find_no_spacer
  semantic_search_left self point =
      elim (inline_search_left self point self.config.semantic_escape_chars) [
        | ok found ↦ find_no_spacer (rounds self) found (iter_from self.grid found)
        | err end ↦ end
      ]

  unfoldable pub semantic_search_right : Term x → Point → Point
  unfolding inline_search_right
  semantic_search_right self point =
      elim (inline_search_right self point self.config.semantic_escape_chars) [
        | ok found ↦ elim (Cells.prev (iter_from self.grid found)).0 [
          | none ↦ found
          | some indexed ↦ indexed.point
        ]
        | err end ↦ end
      ]

  -- The loops go through as many rounds as there are lines to move over.
  unfoldable pub wrapped_above : Term x → ℤ → ℕ → ℤ
  wrapped_above self line zero = line
  wrapped_above self line (suc n) =
      let above : Point = record { line = line -ᵢ pos 1; column = last_column (size self) } in
      elim (ltb_ℤ (topmost_line (size self)) line && is_wrap self above) [
        | true ↦ wrapped_above self (line -ᵢ pos 1) n
        | false ↦ line
      ]

  unfoldable pub line_search_left : Term x → Point → Point
  unfolding wrapped_above
  line_search_left self point =
      let n = usize_of (point.line -ᵢ topmost_line (size self)) in
      record { line = wrapped_above self point.line n; column = 0 }

  unfoldable pub wrapped_below : Term x → ℤ → ℕ → ℤ
  wrapped_below self line zero = line
  wrapped_below self line (suc n) =
      let here : Point = record { line = line; column = last_column (size self) } in
      elim (ltb_ℤ (line +ᵢ pos 1) (i32_of self.grid.lines) && is_wrap self here) [
        | true ↦ wrapped_below self (line +ᵢ pos 1) n
        | false ↦ line
      ]

  unfoldable pub line_search_right : Term x → Point → Point
  unfolding wrapped_below
  line_search_right self point =
      let n = usize_of (i32_of self.grid.lines -ᵢ point.line) in
      record { line = wrapped_below self point.line n; column = last_column (size self) }
