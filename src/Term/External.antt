-- ===== src/Term/External.antt =====
-- What the terminal takes from the crates vte and unicode-width, and from the standard library.
use velacritty.Prelude.{ℕ, ◌≡◌, Bool, true, Option}

pub data KeyboardFlag : Type 0 where
  disambiguate_esc_codes report_event_types report_alternate_keys report_all_keys_as_esc :
      KeyboardFlag
  report_associated_text : KeyboardFlag

-- Characters are code points. `eq_color` and `eq_rgb` are the derived equality of colours, and
-- `map_char` is `StandardCharset::map`.
pub record External : Type 1 where
  pub Color : Type 0
  pub background : Color
  pub foreground : Color
  pub eq_color : Color → Color → Bool
  pub eq_color_sound : (a b : Color) → eq_color a b ≡ true → a ≡ b
  pub Rgb : Type 0
  pub eq_rgb : Rgb → Rgb → Bool
  pub cursor_color : ℕ
  pub Text : Type 0
  pub Charset : Type 0
  pub map_char : Charset → ℕ → ℕ
  pub CursorShape : Type 0
  pub KeyboardModes : Type 0
  pub no_mode : KeyboardModes
  pub has_flag : KeyboardModes → KeyboardFlag → Bool
  pub width : ℕ → Option ℕ
