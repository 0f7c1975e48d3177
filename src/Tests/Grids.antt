-- ===== src/Tests/Grids.antt =====
use velacritty.Prelude.{ℕ, ◌≡◌, ◌<◌, inl, ◌+◌, ◌*◌, some, refl, false, [], ◌∷◌, arith, replicate}
use velacritty.Prelude.Int.{pos, negsuc, pos_part, ◌≤ℤ◌, ◌+ℤ◌}
use velacritty.Index.{min_ℤ, max_ℤ}
use velacritty.Prelude.Word.{i32_of, ◌-ᵢ◌}
use velacritty.Grid.Row.{Row}
use velacritty.Grid.Storage.View.{view}
use velacritty.Grid.{Cursor, Grid, delta, history_size, scroll_display, scroll_up}
use velacritty.Grid.Cells.{GridIterator, iter_from}
use velacritty.Grid.Clear.{scan_back}
use velacritty.Grid.Clear.Ends.{scan_back-clear_viewport}
use velacritty.Grid.Loops.{HasShape}
use velacritty.Grid.MovesUp.{MovesUp}
use velacritty.Grid.Wellformed.{IsGrid}
use velacritty.Grid.ScrollUp.{scroll_up-MovesUp}
use velacritty.Grid.Viewport.{scroll_display_lem, scroll_up-past_history}
use velacritty.Tests.Cells.{char_cell}

abbrev row : ℕ → Row ℕ
row c = record { inner = c ∷ []; occ = 1 }

abbrev cursor : Cursor ℕ ℕ
cursor = record {
  point = record { line = pos 0; column = 0 };
  template = 0;
  charsets = replicate 4 0;
  input_needs_wrap = false;
}

-- A screen of three lines, with one line of history of the five that there may be.
abbrev small : Grid ℕ ℕ
small = record {
  cursor = cursor;
  saved_cursor = cursor;
  raw = record { inner = row 1 ∷ row 2 ∷ row 3 ∷ row 4 ∷ []; zero = 0; visible_lines = 3; len = 4 };
  columns = 1;
  lines = 3;
  display_offset = 0;
  max_scroll_limit = 5;
  auto_scroll_enabled = false;
}

small-IsGrid : IsGrid 8 small
small-IsGrid = record {
  valid = omega arith;
  screen = refl;
  history = omega arith;
  limit = omega arith;
  buffer = omega arith;
  fits = omega arith;
  some_column = omega arith;
  display = omega arith;
}

scroll_up-MovesUp_example :
    let self' = scroll_up small (record { start = pos 0; end = pos 2 }) 1 in
    HasShape 3 5 self'.raw × MovesUp 1 1 1 0 (view small.raw) (view self'.raw)
scroll_up-MovesUp_example = scroll_up-MovesUp small 2 1 small-IsGrid (omega arith) (omega arith)

abbrev scrolled_back : Grid ℕ ℕ
scrolled_back = record small { display_offset = 1 }

-- Three lines down, of which the history has one.
scroll_display_lem_example :
    pos (scroll_display scrolled_back (delta (negsuc 2))).display_offset
    ≡ max_ℤ (min_ℤ (pos 1 +ℤ negsuc 2) (pos 1)) (pos 0)
unfolding ◌+ℤ◌
scroll_display_lem_example =
    scroll_display_lem scrolled_back (delta (negsuc 2)) (omega arith) (omega arith) (omega arith)
      (omega arith, omega arith)

scrolled_back-IsGrid : IsGrid 8 scrolled_back
scrolled_back-IsGrid = record {
  valid = omega arith;
  screen = refl;
  history = omega arith;
  limit = omega arith;
  buffer = omega arith;
  fits = omega arith;
  some_column = omega arith;
  display = omega arith;
}

scroll_up-past_history_example :
    let self' = scroll_up scrolled_back (record { start = pos 1; end = pos 3 }) 1 in
    (history_size self' ≡ 1)
    × (self'.display_offset ≡ 2)
    × (history_size self' < self'.display_offset)
    × (self'.raw.len < self'.display_offset + self'.lines)
unfolding ◌-ᵢ◌ i32_of
scroll_up-past_history_example =
    scroll_up-past_history scrolled_back (pos 1) (pos 3) 1 scrolled_back-IsGrid refl refl (inl refl)
      refl (omega arith) (omega arith) (omega arith)

scan_back-clear_viewport_example :
    (found : GridIterator ℕ ℕ) × (scan_back
        (3 * 1 + 1)
        (iter_from small (record { line = i32_of 3 -ᵢ pos 1; column = 1 }))
      ≡ some found)
    × (negsuc 0 ≤ℤ found.point.line)
    × (pos_part found.point.line < 3)
scan_back-clear_viewport_example =
    scan_back-clear_viewport small (omega arith) (omega arith) (omega arith) (omega arith)
