-- ===== src/Term/State.antt =====
-- The state of the terminal (velacritty_terminal/src/term/mod.rs) and the parts of its operations.
use velacritty.Prelude.{ℕ, Bool, true, Option, none, some, List, [], ◌∷◌, ◌++◌, if◌then◌else◌}
use velacritty.Prelude.Bitflags
use velacritty.Prelude.Bitflags.{Bits}
use velacritty.Prelude.Int.{ℤ}
use velacritty.Prelude.Word.{usize_of}
use velacritty.Index.{Point, Dimensions, left}
use velacritty.Grid.{Cursor, Grid, Region, dimensions}
use velacritty.Selection
use velacritty.Selection.{Selection}
use velacritty.Term.External.{External}
use velacritty.Term.Cell.{Cell}
use velacritty.Term.TabStops.{TabStops}
use velacritty.Term.Damage
use velacritty.Term.Damage.{TermDamageState}
use velacritty.Term.Mode

pub record CursorStyle (x : External) : Type 0 where
  pub shape : x.CursorShape
  pub blinking : Bool

-- The configuration without its mode for OSC 52.
pub record Config (x : External) : Type 0 where
  pub scrolling_history : ℕ
  pub default_cursor_style : CursorStyle x
  pub vi_mode_cursor_style : Option (CursorStyle x)
  pub semantic_escape_chars : List ℕ
  pub kitty_keyboard : Bool
  pub auto_scroll : Bool

-- The events that the modelled handlers send.
pub data Event (x : External) : Type 0 where
  mouse_cursor_dirty : Event x
  title : x.Text → Event x
  reset_title : Event x
  cursor_blinking_change : Event x
  bell : Event x
  exit : Event x

-- `event_proxy` has the events sent, in their order. `active_charset` is an index into the four
-- character sets of the cursor.
pub record Term (x : External) : Type 0 where
  pub is_focused : Bool
  pub vi_mode_cursor : Point
  pub selection : Option Selection
  pub grid : Grid (Cell x) x.Charset
  pub inactive_grid : Grid (Cell x) x.Charset
  pub active_charset : ℕ
  pub tabs : TabStops
  pub mode : Bits
  pub scroll_region : Region
  pub colors : List (Option x.Rgb)
  pub cursor_style : Option (CursorStyle x)
  pub event_proxy : List (Event x)
  pub title : Option x.Text
  pub title_stack : List (Option x.Text)
  pub keyboard_mode_stack : List x.KeyboardModes
  pub inactive_keyboard_mode_stack : List x.KeyboardModes
  pub damage : TermDamageState
  pub config : Config x

module _ {x : External} where
  -- `impl Dimensions for Term`.
  abbrev pub size : Term x → Dimensions
  size self = dimensions self.grid

  abbrev pub send_event : Term x → Event x → Term x
  send_event self event = record self { event_proxy = self.event_proxy ++ (event ∷ []) }

  abbrev pub has_mode : Term x → ℕ → Bool
  has_mode self mode = Bitflags.contains self.mode mode

  abbrev pub insert_mode : Term x → ℕ → Term x
  insert_mode self mode = record self { mode = Bitflags.insert self.mode mode }

  abbrev pub remove_mode : Term x → ℕ → Term x
  remove_mode self mode = record self { mode = Bitflags.remove self.mode mode }

  unfoldable pub mark_fully_damaged : Term x → Term x
  mark_fully_damaged self = record self { damage = record self.damage { full = true } }

  abbrev pub cursor_point : Term x → Point
  cursor_point self = self.grid.cursor.point

  unfoldable pub damage_cursor : Term x → Term x
  unfolding usize_of
  damage_cursor self =
      let point = cursor_point self in
      record self {
        damage =
            Damage.damage_point self.damage
              (record { line = usize_of point.line; column = point.column });
      }

  unfoldable pub damage_line : Term x → ℤ → ℕ → ℕ → Term x
  unfolding usize_of
  damage_line self line first last = record self {
    damage = Damage.damage_line self.damage (usize_of line) first last;
  }

  abbrev pub with_cursor : Term x → Cursor (Cell x) x.Charset → Term x
  with_cursor self cursor = record self { grid = record self.grid { cursor = cursor } }

  -- The assignments to `cursor.point` and `cursor.input_needs_wrap`.
  abbrev pub set_point : Term x → Point → Term x
  set_point self point = with_cursor self (record self.grid.cursor { point = point })

  abbrev pub set_line : Term x → ℤ → Term x
  set_line self line = set_point self (record (cursor_point self) { line = line })

  abbrev pub set_column : Term x → ℕ → Term x
  set_column self column = set_point self (record (cursor_point self) { column = column })

  abbrev pub set_needs_wrap : Term x → Bool → Term x
  set_needs_wrap self b = with_cursor self (record self.grid.cursor { input_needs_wrap = b })

  abbrev pub set_template : Term x → Cell x → Term x
  set_template self template = with_cursor self (record self.grid.cursor { template = template })

  -- `self.selection.take().filter(|s| !s.intersects_range(range))` and such.
  abbrev pub keep_selection : Term x → (Selection → Bool) → Option Selection
  keep_selection self p = elim self.selection [
    | none ↦ none
    | some s ↦ if p s then some s else none
  ]

  -- Update only if non-empty selection is present.
  unfoldable pub recomputed : Term x → Option Selection
  recomputed self = elim self.selection [
    | none ↦ none
    | some selection ↦
        if Selection.is_empty selection
        then some selection
        else some (Selection.include_all (Selection.update selection self.vi_mode_cursor left))
  ]

  unfoldable pub vi_mode_recompute_selection : Term x → Term x
  unfolding recomputed
  vi_mode_recompute_selection self = record self {
    selection = if has_mode self Mode.vi then recomputed self else self.selection;
  }
