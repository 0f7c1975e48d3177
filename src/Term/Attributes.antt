-- ===== src/Term/Attributes.antt =====
-- The template of the cursor and its character sets (velacritty_terminal/src/term/mod.rs).
use velacritty.Prelude.{ℕ, Option, none, some, List, [], ◌∷◌, set, if◌then◌else◌}
use velacritty.Prelude.Bitflags
use velacritty.Prelude.Bitflags.{Bits}
use velacritty.Term.Cell
use velacritty.Term.Cell.{Cell, Hyperlink}
use velacritty.Term.External.{External}
use velacritty.Term.Flags
use velacritty.Term.Mode
use velacritty.Term.State
use velacritty.Term.State.{Term, CursorStyle, set_template, with_cursor, send_event}

-- `Attr` of the crate vte; `unhandled` stands for those that the handler passes over.
pub data Attr (x : External) : Type 0 where
  foreground : x.Color → Attr x
  background : x.Color → Attr x
  underline_color : Option x.Color → Attr x
  reset reverse cancel_reverse bold cancel_bold dim cancel_bold_dim italic cancel_italic : Attr x
  underline double_underline undercurl dotted_underline dashed_underline : Attr x
  cancel_underline hidden cancel_hidden strike cancel_strike unhandled : Attr x

abbrev pub all_underlines : List ℕ
all_underlines =
    Flags.underline ∷ Flags.double_underline ∷ Flags.undercurl ∷ Flags.dotted_underline
    ∷ Flags.dashed_underline ∷ []

module _ {x : External} where
  abbrev pub insert_flag : Cell x → ℕ → Cell x
  insert_flag cell flag = record cell { flags = Bitflags.insert cell.flags flag }

  abbrev pub remove_flag : Cell x → ℕ → Cell x
  remove_flag cell flag = record cell { flags = Bitflags.remove cell.flags flag }

  abbrev pub remove_flags : Cell x → List ℕ → Cell x
  remove_flags cell flags = record cell { flags = Bitflags.remove_all cell.flags flags }

  abbrev pub underlined : Cell x → ℕ → Cell x
  underlined cell flag = insert_flag (remove_flags cell all_underlines) flag

  -- The template after an attribute.
  unfoldable pub apply_attr : Cell x → Attr x → Cell x
  apply_attr cell (foreground color) = record cell { fg = color }
  apply_attr cell (background color) = record cell { bg = color }
  apply_attr cell (underline_color color) = Cell.set_underline_color cell color
  apply_attr cell reset =
      Cell.set_underline_color
        (record cell { fg = x.foreground; bg = x.background; flags = Bitflags.empty }) none
  apply_attr cell reverse = insert_flag cell Flags.inverse
  apply_attr cell cancel_reverse = remove_flag cell Flags.inverse
  apply_attr cell bold = insert_flag cell Flags.bold
  apply_attr cell cancel_bold = remove_flag cell Flags.bold
  apply_attr cell dim = insert_flag cell Flags.dim
  apply_attr cell cancel_bold_dim = remove_flags cell (Flags.bold ∷ Flags.dim ∷ [])
  apply_attr cell italic = insert_flag cell Flags.italic
  apply_attr cell cancel_italic = remove_flag cell Flags.italic
  apply_attr cell underline = underlined cell Flags.underline
  apply_attr cell double_underline = underlined cell Flags.double_underline
  apply_attr cell undercurl = underlined cell Flags.undercurl
  apply_attr cell dotted_underline = underlined cell Flags.dotted_underline
  apply_attr cell dashed_underline = underlined cell Flags.dashed_underline
  apply_attr cell cancel_underline = remove_flags cell all_underlines
  apply_attr cell hidden = insert_flag cell Flags.hidden
  apply_attr cell cancel_hidden = remove_flag cell Flags.hidden
  apply_attr cell strike = insert_flag cell Flags.strikeout
  apply_attr cell cancel_strike = remove_flag cell Flags.strikeout
  apply_attr cell unhandled = cell

  unfoldable pub terminal_attribute : Term x → Attr x → Term x
  unfolding apply_attr
  terminal_attribute self attr = set_template self (apply_attr self.grid.cursor.template attr)

  unfoldable pub set_hyperlink : Term x → Option (Hyperlink x) → Term x
  set_hyperlink self hyperlink =
      set_template self (Cell.set_hyperlink self.grid.cursor.template hyperlink)

  unfoldable pub configure_charset : Term x → ℕ → x.Charset → Term x
  configure_charset self index charset =
      with_cursor self
        (record self.grid.cursor { charsets = set self.grid.cursor.charsets index charset })

  unfoldable pub set_active_charset : Term x → ℕ → Term x
  set_active_charset self index = record self { active_charset = index }

  abbrev pub style_or_default : Term x → CursorStyle x
  style_or_default self = elim self.cursor_style [
    | none ↦ self.config.default_cursor_style
    | some style ↦ style
  ]

  -- `Term::cursor_style`.
  unfoldable pub cursor_style : Term x → CursorStyle x
  cursor_style self =
      let style = style_or_default self in
      if State.has_mode self Mode.vi
      then elim self.config.vi_mode_cursor_style [ none ↦ style | some vi ↦ vi ]
      else style

  unfoldable pub set_cursor_style : Term x → Option (CursorStyle x) → Term x
  set_cursor_style self style =
      send_event (record self { cursor_style = style }) State.cursor_blinking_change

  unfoldable pub set_cursor_shape : Term x → x.CursorShape → Term x
  set_cursor_shape self shape = record self {
    cursor_style = some (record (style_or_default self) { shape = shape });
  }
