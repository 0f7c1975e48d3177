-- ===== src/Term/Modes.antt =====
-- The handlers that set and unset modes (velacritty_terminal/src/term/mod.rs).
use velacritty.Prelude.{ℕ, Bool, true, false, some, if◌then◌else◌}
use velacritty.Prelude.Bitflags
use velacritty.Prelude.Int.{pos}
use velacritty.Term.Attributes.{style_or_default}
use velacritty.Term.Cursor.{goto}
use velacritty.Term.External.{External}
use velacritty.Term.Mode
use velacritty.Term.Screen.{swap_alt, deccolm}
use velacritty.Term.State
use velacritty.Term.State.{Term, has_mode, insert_mode, remove_mode, mark_fully_damaged, send_event}

-- `PrivateMode` of the crate vte; the number is that of an unknown mode.
pub data PrivateMode : Type 0 where
  urgency_hints swap_screen_and_set_restore_cursor show_cursor cursor_keys : PrivateMode
  report_mouse_clicks report_cell_mouse_motion report_all_mouse_motion : PrivateMode
  report_focus_in_out bracketed_paste sgr_mouse utf8_mouse alternate_scroll : PrivateMode
  line_wrap origin column_mode blinking_cursor sync_update : PrivateMode
  unknown : ℕ → PrivateMode

-- `ansi::Mode`.
pub data PublicMode : Type 0 where
  insert line_feed_new_line : PublicMode
  unknown_mode : ℕ → PublicMode

module _ {x : External} where
  -- Mouse protocols are mutually exclusive.
  unfoldable pub set_mouse : Term x → ℕ → Term x
  set_mouse self mode =
      let removed : Term x = record self { mode = Bitflags.remove_all self.mode Mode.mouse_mode } in
      send_event (insert_mode removed mode) State.mouse_cursor_dirty

  unfoldable pub set_blinking : Term x → Bool → Term x
  set_blinking self blinking =
      send_event
        (record self {
          cursor_style = some (record (style_or_default self) { blinking = blinking });
        })
        State.cursor_blinking_change

  unfoldable pub set_private_mode : Term x → PrivateMode → Term x
  unfolding set_mouse set_blinking
  set_private_mode self urgency_hints = insert_mode self Mode.urgency_hints
  set_private_mode self swap_screen_and_set_restore_cursor =
      if has_mode self Mode.alt_screen then self else swap_alt self
  set_private_mode self show_cursor = insert_mode self Mode.show_cursor
  set_private_mode self cursor_keys = insert_mode self Mode.app_cursor
  set_private_mode self report_mouse_clicks = set_mouse self Mode.mouse_report_click
  set_private_mode self report_cell_mouse_motion = set_mouse self Mode.mouse_drag
  set_private_mode self report_all_mouse_motion = set_mouse self Mode.mouse_motion
  set_private_mode self report_focus_in_out = insert_mode self Mode.focus_in_out
  set_private_mode self bracketed_paste = insert_mode self Mode.bracketed_paste
  set_private_mode self sgr_mouse = insert_mode (remove_mode self Mode.utf8_mouse) Mode.sgr_mouse
  set_private_mode self utf8_mouse = insert_mode (remove_mode self Mode.sgr_mouse) Mode.utf8_mouse
  set_private_mode self alternate_scroll = insert_mode self Mode.alternate_scroll
  set_private_mode self line_wrap = insert_mode self Mode.line_wrap
  set_private_mode self origin = goto (insert_mode self Mode.origin) (pos 0) 0
  set_private_mode self column_mode = deccolm self
  set_private_mode self blinking_cursor = set_blinking self true
  set_private_mode self sync_update = self
  set_private_mode self (unknown mode) = self

  unfoldable pub unset_mouse : Term x → ℕ → Term x
  unset_mouse self mode = send_event (remove_mode self mode) State.mouse_cursor_dirty

  unfoldable pub unset_private_mode : Term x → PrivateMode → Term x
  unfolding unset_mouse set_blinking
  unset_private_mode self urgency_hints = remove_mode self Mode.urgency_hints
  unset_private_mode self swap_screen_and_set_restore_cursor =
      if has_mode self Mode.alt_screen then swap_alt self else self
  unset_private_mode self show_cursor = remove_mode self Mode.show_cursor
  unset_private_mode self cursor_keys = remove_mode self Mode.app_cursor
  unset_private_mode self report_mouse_clicks = unset_mouse self Mode.mouse_report_click
  unset_private_mode self report_cell_mouse_motion = unset_mouse self Mode.mouse_drag
  unset_private_mode self report_all_mouse_motion = unset_mouse self Mode.mouse_motion
  unset_private_mode self report_focus_in_out = remove_mode self Mode.focus_in_out
  unset_private_mode self bracketed_paste = remove_mode self Mode.bracketed_paste
  unset_private_mode self sgr_mouse = remove_mode self Mode.sgr_mouse
  unset_private_mode self utf8_mouse = remove_mode self Mode.utf8_mouse
  unset_private_mode self alternate_scroll = remove_mode self Mode.alternate_scroll
  unset_private_mode self line_wrap = remove_mode self Mode.line_wrap
  unset_private_mode self origin = remove_mode self Mode.origin
  unset_private_mode self column_mode = deccolm self
  unset_private_mode self blinking_cursor = set_blinking self false
  unset_private_mode self sync_update = self
  unset_private_mode self (unknown mode) = self

  unfoldable pub set_mode : Term x → PublicMode → Term x
  set_mode self insert = insert_mode self Mode.insert
  set_mode self line_feed_new_line = insert_mode self Mode.line_feed_new_line
  set_mode self (unknown_mode mode) = self

  unfoldable pub unset_mode : Term x → PublicMode → Term x
  unset_mode self insert = mark_fully_damaged (remove_mode self Mode.insert)
  unset_mode self line_feed_new_line = remove_mode self Mode.line_feed_new_line
  unset_mode self (unknown_mode mode) = self

  unfoldable pub set_keypad_application_mode : Term x → Term x
  set_keypad_application_mode self = insert_mode self Mode.app_keypad

  unfoldable pub unset_keypad_application_mode : Term x → Term x
  unset_keypad_application_mode self = remove_mode self Mode.app_keypad
