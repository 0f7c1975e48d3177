-- ===== src/Term/Options.antt =====
-- The construction of the terminal, its options, and the cursor to draw
-- (velacritty_terminal/src/term/mod.rs).
use velacritty.Prelude.{ℕ, Bool, false, not, ◌&&◌, none, [], replicate, if◌then◌else◌}
use velacritty.Prelude.Bitflags
use velacritty.Prelude.Int.{pos}
use velacritty.Prelude.Word.{i32_of, usize_sub}
use velacritty.Index.{Point, Dimensions}
use velacritty.Grid.{update_history}
use velacritty.Grid.Clear
use velacritty.Term.Attributes
use velacritty.Term.Cell.{cell}
use velacritty.Term.Damage
use velacritty.Term.External.{External}
use velacritty.Term.Flags
use velacritty.Term.Input.{flags_at}
use velacritty.Term.Mode
use velacritty.Term.Stacks.{title_event}
use velacritty.Term.State.{Config, Term, cursor_point, has_mode, mark_fully_damaged, send_event}
use velacritty.Term.TabStops

-- The number of the terminal's colours.
abbrev pub count : ℕ
count = 269

abbrev pub same : Bool → Bool → Bool
same a b = if a then b else not b

pub record RenderableCursor (x : External) : Type 0 where
  pub shape : x.CursorShape
  pub point : Point

module _ {x : External} where
  -- The parser's default character set is an argument.
  unfoldable pub new : x.Charset → Config x → Dimensions → Term x
  new ascii config dimensions =
      let num_cols = dimensions.columns in
      let num_lines = dimensions.screen_lines in
      record {
        is_focused = false;
        vi_mode_cursor = record { line = pos 0; column = 0 };
        selection = none;
        grid = Clear.new ascii num_lines num_cols config.scrolling_history;
        inactive_grid = Clear.new ascii num_lines num_cols 0;
        active_charset = 0;
        tabs = TabStops.new num_cols;
        mode = Mode.default;
        scroll_region = record { start = pos 0; end = i32_of num_lines };
        colors = replicate count none;
        cursor_style = none;
        event_proxy = [];
        title = none;
        title_stack = [];
        keyboard_mode_stack = [];
        inactive_keyboard_mode_stack = [];
        damage = Damage.new num_cols num_lines;
        config = config;
      }

  -- The history of the primary grid, which is the inactive one on the alternate screen.
  unfoldable pub resize_history : Term x → ℕ → Term x
  resize_history self size =
      if has_mode self Mode.alt_screen
      then record self { inactive_grid = update_history self.inactive_grid size }
      else record self { grid = update_history self.grid size }

  unfoldable pub clear_keyboard_modes : Term x → Term x
  clear_keyboard_modes self = record self {
    keyboard_mode_stack = [];
    inactive_keyboard_mode_stack = [];
    mode = Bitflags.remove_all self.mode Mode.kitty_keyboard_protocol;
  }

  unfoldable pub set_options : Term x → Config x → Term x
  unfolding resize_history clear_keyboard_modes
  set_options self options =
      let sent = send_event (record self { config = options }) (title_event self.title) in
      let sized = resize_history sent options.scrolling_history in
      mark_fully_damaged (
        if same options.kitty_keyboard self.config.kitty_keyboard
        then sized
        else clear_keyboard_modes sized)

  -- `RenderableCursor::new`; the shape of a hidden cursor is an argument.
  unfoldable pub renderable_cursor : x.CursorShape → Term x → RenderableCursor x
  renderable_cursor hidden term =
      let vi_mode = has_mode term Mode.vi in
      let point = if vi_mode then term.vi_mode_cursor else cursor_point term in
      record {
        shape =
            if not vi_mode && not (has_mode term Mode.show_cursor)
            then hidden
            else (Attributes.cursor_style term).shape;
        point =
            if Bitflags.contains (flags_at term point) Flags.wide_char_spacer
            then record point { column = usize_sub point.column 1 }
            else point;
      }
