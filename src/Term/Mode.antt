-- ===== src/Term/Mode.antt =====
-- `TermMode` of velacritty_terminal/src/term/mod.rs: the positions of its bits, and its values.
use velacritty.Prelude.{ℕ, List, [], ◌∷◌}
use velacritty.Prelude.Bitflags
use velacritty.Prelude.Bitflags.{Bits}
use velacritty.Term.External
use velacritty.Term.External.{External}

abbrev pub show_cursor : ℕ
show_cursor = 0

abbrev pub app_cursor : ℕ
app_cursor = 1

abbrev pub app_keypad : ℕ
app_keypad = 2

abbrev pub mouse_report_click : ℕ
mouse_report_click = 3

abbrev pub bracketed_paste : ℕ
bracketed_paste = 4

abbrev pub sgr_mouse : ℕ
sgr_mouse = 5

abbrev pub mouse_motion : ℕ
mouse_motion = 6

abbrev pub line_wrap : ℕ
line_wrap = 7

abbrev pub line_feed_new_line : ℕ
line_feed_new_line = 8

abbrev pub origin : ℕ
origin = 9

abbrev pub insert : ℕ
insert = 10

abbrev pub focus_in_out : ℕ
focus_in_out = 11

abbrev pub alt_screen : ℕ
alt_screen = 12

abbrev pub mouse_drag : ℕ
mouse_drag = 13

abbrev pub utf8_mouse : ℕ
utf8_mouse = 14

abbrev pub alternate_scroll : ℕ
alternate_scroll = 15

abbrev pub vi : ℕ
vi = 16

abbrev pub urgency_hints : ℕ
urgency_hints = 17

abbrev pub disambiguate_esc_codes : ℕ
disambiguate_esc_codes = 18

abbrev pub report_event_types : ℕ
report_event_types = 19

abbrev pub report_alternate_keys : ℕ
report_alternate_keys = 20

abbrev pub report_all_keys_as_esc : ℕ
report_all_keys_as_esc = 21

abbrev pub report_associated_text : ℕ
report_associated_text = 22

abbrev pub mouse_mode : List ℕ
mouse_mode = mouse_report_click ∷ mouse_motion ∷ mouse_drag ∷ []

abbrev pub kitty_keyboard_protocol : List ℕ
kitty_keyboard_protocol =
    disambiguate_esc_codes ∷ report_event_types ∷ report_alternate_keys ∷ report_all_keys_as_esc
    ∷ report_associated_text ∷ []

unfoldable pub default : Bits
default =
    Bitflags.insert
      (Bitflags.insert (Bitflags.insert (Bitflags.flag show_cursor) line_wrap) alternate_scroll)
      urgency_hints

-- `From<KeyboardModes>`.
unfoldable pub from_keyboard_modes : (x : External) → x.KeyboardModes → Bits
from_keyboard_modes x value =
    let mode0 =
      Bitflags.put Bitflags.empty disambiguate_esc_codes
        (x.has_flag value External.disambiguate_esc_codes) in
    let mode1 =
      Bitflags.put mode0 report_event_types (x.has_flag value External.report_event_types) in
    let mode2 =
      Bitflags.put mode1 report_alternate_keys (x.has_flag value External.report_alternate_keys) in
    let mode3 =
      Bitflags.put mode2 report_all_keys_as_esc
        (x.has_flag value External.report_all_keys_as_esc) in
    Bitflags.put mode3 report_associated_text (x.has_flag value External.report_associated_text)
