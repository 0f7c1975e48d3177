-- ===== src/Term/Cursor/Moves.antt =====
-- The cursor stays on the screen under any sequence of the handlers that move it.
use velacritty.Prelude.{ℕ, ◌<◌, Option}
use velacritty.Prelude.Int.{ℤ}
use velacritty.Term.External.{External}
use velacritty.Term.Cell.{cell}
use velacritty.Term.State.{Term}
use velacritty.Term.Scroll
use velacritty.Term.Cursor
use velacritty.Term.Edit
use velacritty.Term.Edit.{LineClearMode}
use velacritty.Term.Input
use velacritty.Term.Modes
use velacritty.Term.Modes.{PrivateMode, PublicMode}
use velacritty.Term.Screen
use velacritty.Term.Screen.{ClearMode, TabulationClearMode}
use velacritty.Term.Cursor.Writes.{input-OnScreen}
use velacritty.Term.Cursor.Places.{
  SamePlace-OnScreen, insert_blank-SamePlace, erase_chars-SamePlace, delete_chars-SamePlace,
  clear_line-SamePlace,
}
use velacritty.Term.Cursor.Inside.{OnScreen, goto-OnScreen, scroll_up-OnScreen}
use velacritty.Term.Cursor.Lines.{linefeed-OnScreen, wrapline-OnScreen}
use velacritty.Term.Cursor.Steps.{
  move_forward-OnScreen, move_backward-OnScreen, backspace-OnScreen, carriage_return-OnScreen,
  newline-OnScreen, back-OnScreen, forward-OnScreen, put_tab-OnScreen, scroll_down-OnScreen,
  reverse_index-OnScreen, insert_blank_lines-OnScreen, delete_lines-OnScreen, save-OnScreen,
  restore-OnScreen,
}
use velacritty.Term.Cursor.Regions.{IsBottom, set_scrolling_region-OnScreen}
use velacritty.Term.Cursor.Screens.{
  swap_alt-OnScreen, deccolm-OnScreen, reset_state-OnScreen, set_private_mode-OnScreen,
  unset_private_mode-OnScreen, set_mode-OnScreen, unset_mode-OnScreen,
}
use velacritty.Term.Cursor.Resets.{clear_screen-OnScreen, clear_tabs-OnScreen, decaln-OnScreen}

-- A handler that moves the cursor, scrolls, writes, clears, swaps or resets the screen, or sets a
-- mode, with its arguments.
pub data Move : Type 0 where
  goto : ℤ → ℕ → Move
  goto_line : ℤ → Move
  goto_col move_up move_down move_up_and_cr move_down_and_cr move_forward move_backward : ℕ → Move
  put_tab move_backward_tabs move_forward_tabs : ℕ → Move
  scroll_up scroll_down insert_blank_lines delete_lines : ℕ → Move
  backspace carriage_return linefeed newline reverse_index wrapline : Move
  save_cursor_position restore_cursor_position : Move
  set_scrolling_region : ℕ → Option ℕ → Move
  input insert_blank erase_chars delete_chars : ℕ → Move
  clear_line : LineClearMode → Move
  clear_screen : ClearMode → Move
  clear_tabs : TabulationClearMode → Move
  swap_alt deccolm decaln reset_state : Move
  set_private_mode unset_private_mode : PrivateMode → Move
  set_mode unset_mode : PublicMode → Move

-- The character set is `StandardCharset::Ascii`, which a reset of the terminal sets.
module _ {x : External} (ascii : x.Charset) where
  unfoldable pub run : Term x → Move → Term x
  run self (goto line col) = Cursor.goto self line col
  run self (goto_line line) = Cursor.goto_line self line
  run self (goto_col col) = Cursor.goto_col self col
  run self (move_up n) = Cursor.move_up self n
  run self (move_down n) = Cursor.move_down self n
  run self (move_up_and_cr n) = Cursor.move_up_and_cr self n
  run self (move_down_and_cr n) = Cursor.move_down_and_cr self n
  run self (move_forward n) = Cursor.move_forward self n
  run self (move_backward n) = Cursor.move_backward self n
  run self (put_tab n) = Cursor.put_tab self n
  run self (move_backward_tabs n) = Cursor.move_backward_tabs self n
  run self (move_forward_tabs n) = Cursor.move_forward_tabs self n
  run self (scroll_up n) = Scroll.scroll_up self n
  run self (scroll_down n) = Scroll.scroll_down self n
  run self (insert_blank_lines n) = Scroll.insert_blank_lines self n
  run self (delete_lines n) = Scroll.delete_lines self n
  run self backspace = Cursor.backspace self
  run self carriage_return = Cursor.carriage_return self
  run self linefeed = Scroll.linefeed self
  run self newline = Cursor.newline self
  run self reverse_index = Scroll.reverse_index self
  run self wrapline = Scroll.wrapline self
  run self save_cursor_position = Cursor.save_cursor_position self
  run self restore_cursor_position = Cursor.restore_cursor_position self
  run self (set_scrolling_region top bottom) = Cursor.set_scrolling_region self top bottom
  run self (input c) = Input.input self c
  run self (insert_blank n) = Edit.insert_blank self n
  run self (erase_chars n) = Edit.erase_chars self n
  run self (delete_chars n) = Edit.delete_chars self n
  run self (clear_line mode) = Edit.clear_line self mode
  run self (clear_screen mode) = Screen.clear_screen self mode
  run self (clear_tabs mode) = Screen.clear_tabs self mode
  run self swap_alt = Screen.swap_alt self
  run self deccolm = Screen.deccolm self
  run self decaln = Screen.decaln self
  run self reset_state = Screen.reset_state ascii self
  run self (set_private_mode mode) = Modes.set_private_mode self mode
  run self (unset_private_mode mode) = Modes.unset_private_mode self mode
  run self (set_mode mode) = Modes.set_mode self mode
  run self (unset_mode mode) = Modes.unset_mode self mode

-- The lines of a scroll region count from 1: the parser reads a parameter 0 as the default, 1. Its
-- bottom is a number that an `i32` has: the parser's numbers have 16 bits.
abbrev pub IsMove : Move → Type 0
IsMove (set_scrolling_region top bottom) = (0 < top) × IsBottom bottom
IsMove _ = Unit {0}

module _ {x : External} (ascii : x.Charset) where
  -- Each of the handlers, with its early returns, that move the cursor, scroll, input a character,
  -- edit the cursor's line, set the scroll region, clear, swap or reset the screen, or set a mode,
  -- keeps the cursor and the saved cursor on the screen, the scroll region inside it, and the other
  -- grid of the same size with its cursors on it. The screen has a line and two columns at least,
  -- fewer than 2 ^ 31 of each; a new region begins at line 1 at least and ends below 2 ^ 31.
  pub run-OnScreen :
      (self : Term x) (move : Move) → IsMove move → OnScreen self → OnScreen (run ascii self move)
  unfolding run Cursor.goto_line Cursor.goto_col Cursor.move_up Cursor.move_down
      Cursor.move_up_and_cr Cursor.move_down_and_cr Scroll.scroll_down
  run-OnScreen self (goto line col) h w = goto-OnScreen self _ _ w
  run-OnScreen self (goto_line line) h w = goto-OnScreen self _ _ w
  run-OnScreen self (goto_col col) h w = goto-OnScreen self _ _ w
  run-OnScreen self (move_up n) h w = goto-OnScreen self _ _ w
  run-OnScreen self (move_down n) h w = goto-OnScreen self _ _ w
  run-OnScreen self (move_up_and_cr n) h w = goto-OnScreen self _ _ w
  run-OnScreen self (move_down_and_cr n) h w = goto-OnScreen self _ _ w
  run-OnScreen self (move_forward n) h w = move_forward-OnScreen self n w
  run-OnScreen self (move_backward n) h w = move_backward-OnScreen self n w
  run-OnScreen self (put_tab n) h w = put_tab-OnScreen self n w
  run-OnScreen self (move_backward_tabs n) h w = back-OnScreen self n w
  run-OnScreen self (move_forward_tabs n) h w = forward-OnScreen self n w
  run-OnScreen self (scroll_up n) h w = scroll_up-OnScreen self n w
  run-OnScreen self (scroll_down n) h w = scroll_down-OnScreen self _ n w
  run-OnScreen self (insert_blank_lines n) h w = insert_blank_lines-OnScreen self n w
  run-OnScreen self (delete_lines n) h w = delete_lines-OnScreen self n w
  run-OnScreen self backspace h w = backspace-OnScreen self w
  run-OnScreen self carriage_return h w = carriage_return-OnScreen self w
  run-OnScreen self linefeed h w = linefeed-OnScreen self w
  run-OnScreen self newline h w = newline-OnScreen self w
  run-OnScreen self reverse_index h w = reverse_index-OnScreen self w
  run-OnScreen self wrapline h w = wrapline-OnScreen self w
  run-OnScreen self save_cursor_position h w = save-OnScreen self w
  run-OnScreen self restore_cursor_position h w = restore-OnScreen self w
  run-OnScreen self (set_scrolling_region top bottom) h w =
      set_scrolling_region-OnScreen self top bottom h.0 h.1 w
  run-OnScreen self (input c) h w = input-OnScreen self c w
  run-OnScreen self (insert_blank n) h w = SamePlace-OnScreen (insert_blank-SamePlace self n) w
  run-OnScreen self (erase_chars n) h w = SamePlace-OnScreen (erase_chars-SamePlace self n) w
  run-OnScreen self (delete_chars n) h w = SamePlace-OnScreen (delete_chars-SamePlace self n) w
  run-OnScreen self (clear_line mode) h w = SamePlace-OnScreen (clear_line-SamePlace self mode) w
  run-OnScreen self (clear_screen mode) h w = clear_screen-OnScreen self mode w
  run-OnScreen self (clear_tabs mode) h w = clear_tabs-OnScreen self mode w
  run-OnScreen self swap_alt h w = swap_alt-OnScreen self w
  run-OnScreen self deccolm h w = deccolm-OnScreen self w
  run-OnScreen self decaln h w = decaln-OnScreen self w
  run-OnScreen self reset_state h w = reset_state-OnScreen ascii self w
  run-OnScreen self (set_private_mode mode) h w = set_private_mode-OnScreen self mode w
  run-OnScreen self (unset_private_mode mode) h w = unset_private_mode-OnScreen self mode w
  run-OnScreen self (set_mode mode) h w = set_mode-OnScreen self mode w
  run-OnScreen self (unset_mode mode) h w = unset_mode-OnScreen self mode w
