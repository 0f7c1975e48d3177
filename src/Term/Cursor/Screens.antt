-- ===== src/Term/Cursor/Screens.antt =====
-- Swapping and resetting the screen, and the modes, leave the cursor on the screen.
use velacritty.Prelude.{ℕ, ◌^◌, sym, ◌<◌, ◌≡◌, none, arith, refl, Bool-cases, inl, inr}
use velacritty.Prelude.Int.{pos}
use velacritty.Prelude.Word.{i32_of, i32_of-eq_pos}
use velacritty.Index.{Point}
use velacritty.Grid.{Grid, clear_history}
use velacritty.Grid.Clear
use velacritty.Term.Cell.{Cell, cell}
use velacritty.Term.External.{External}
use velacritty.Term.Mode
use velacritty.Term.Modes
use velacritty.Term.Modes.{PrivateMode, PublicMode}
use velacritty.Term.Screen
use velacritty.Term.Screen.{ClearMode, TabulationClearMode}
use velacritty.Term.Stacks.{apply_keyboard_mode}
use velacritty.Term.State.{Term, has_mode, insert_mode, mark_fully_damaged}
use velacritty.Term.Cursor.Inside.{IsInside, IsOnScreen, OnScreen, goto-OnScreen}
use velacritty.Term.Cursor.Places.{either-OnScreen}
use velacritty.Term.Cursor.Regions.{set_scrolling_region-OnScreen}

-- The first place of the screen.
start-IsInside :
    (lines columns : ℕ)
    → 0 < lines
    → 0 < columns
    → IsInside lines columns (record { line = pos 0; column = 0 })
start-IsInside lines columns h k = omega (arith, h, k)

module _ {x : External} where
  -- The other grid takes the place of the grid, and a grid of the same size that of the other one.
  exchange :
      (self : Term x) (point saved : Point) (other : Grid (Cell x) x.Charset)
      → OnScreen self
      → IsInside self.grid.lines self.grid.columns point
      → IsInside self.grid.lines self.grid.columns saved
      → other.lines ≡ self.grid.lines
      → other.columns ≡ self.grid.columns
      → IsInside self.grid.lines self.grid.columns other.cursor.point
      → IsInside self.grid.lines self.grid.columns other.saved_cursor.point
      → IsOnScreen self.inactive_grid.lines self.inactive_grid.columns self.scroll_region point
          saved other
  exchange self point saved other w p s l c i j =
      rw (w.other_lines, w.other_columns)
        (record {
          some_line = w.some_line;
          some_column = w.some_column;
          wide_column = w.wide_column;
          lines_fit = w.lines_fit;
          columns_fit = w.columns_fit;
          region_starts = w.region_starts;
          region_order = w.region_order;
          region_ends = w.region_ends;
          here = p;
          saved_in = s;
          other_lines = l;
          other_columns = c;
          other_here = i;
          other_saved = j;
        })

  -- A screen whose region is all of it, with the cursors at its first place.
  started :
      (lines columns : ℕ) (other : Grid (Cell x) x.Charset)
      → 0 < lines
      → 1 < columns
      → lines < 2 ^ 31
      → columns < 2 ^ 31
      → other.lines ≡ lines
      → other.columns ≡ columns
      → other.cursor.point ≡ record { line = pos 0; column = 0 }
      → other.saved_cursor.point ≡ record { line = pos 0; column = 0 }
      → IsOnScreen lines columns
          (record { start = pos 0; end = i32_of lines })
          (record { line = pos 0; column = 0 })
          (record { line = pos 0; column = 0 })
          other
  started lines columns other h k m n l c p s =
      let first = start-IsInside lines columns h (omega (arith, k)) in
      let end = i32_of-eq_pos lines m in
      record {
        some_line = h;
        some_column = omega (arith, k);
        wide_column = k;
        lines_fit = m;
        columns_fit = n;
        region_starts = omega arith;
        region_order = rw end (omega arith);
        region_ends = rw end (omega arith);
        here = first;
        saved_in = first;
        other_lines = l;
        other_columns = c;
        other_here = rw p first;
        other_saved = rw s first;
      }

  pub swap_alt-OnScreen : (self : Term x) → OnScreen self → OnScreen (Screen.swap_alt self)
  unfolding Screen.swap_alt Screen.enter_alt Clear.reset_region apply_keyboard_mode
      mark_fully_damaged
  swap_alt-OnScreen self w = elim (Bool-cases (has_mode self Mode.alt_screen)) [
    | inl e ↦
        rw e (exchange self _ _ self.grid w w.other_here w.other_saved refl refl w.here w.saved_in)
    | inr e ↦ rw e (
        exchange self _ _ (record self.grid { saved_cursor = self.grid.cursor }) w w.here
          w.other_saved refl refl w.here w.here)
  ]

  pub deccolm-OnScreen : (self : Term x) → OnScreen self → OnScreen (Screen.deccolm self)
  unfolding Screen.deccolm Clear.reset_region mark_fully_damaged
  deccolm-OnScreen self w = set_scrolling_region-OnScreen self 1 none (omega arith) tt w

  pub reset_state-OnScreen :
      (ascii : x.Charset) (self : Term x) → OnScreen self → OnScreen (Screen.reset_state ascii self)
  unfolding Screen.reset_state Clear.reset clear_history Clear.default_cursor mark_fully_damaged
  reset_state-OnScreen ascii self w = elim (Bool-cases (has_mode self Mode.alt_screen)) [
    | inl e ↦ rw e (
        started self.inactive_grid.lines self.inactive_grid.columns (Clear.reset ascii self.grid)
          (omega (arith, w)) (omega (arith, w)) (omega (arith, w)) (omega (arith, w))
          (sym w.other_lines) (sym w.other_columns) refl refl)
    | inr e ↦ rw e (
        started self.grid.lines self.grid.columns (Clear.reset ascii self.inactive_grid) w.some_line
          w.wide_column w.lines_fit w.columns_fit w.other_lines w.other_columns refl refl)
  ]

  -- The modes that leave the grid alone leave the cursor alone too.
  pub set_private_mode-OnScreen :
      (self : Term x) (mode : PrivateMode)
      → OnScreen self
      → OnScreen (Modes.set_private_mode self mode)
  unfolding Modes.set_private_mode Modes.set_mouse Modes.set_blinking
  set_private_mode-OnScreen self Modes.swap_screen_and_set_restore_cursor w =
      either-OnScreen (has_mode self Mode.alt_screen) self (Screen.swap_alt self) w
        (swap_alt-OnScreen self w)
  set_private_mode-OnScreen self Modes.origin w =
      goto-OnScreen (insert_mode self Mode.origin) (pos 0) 0 w
  set_private_mode-OnScreen self Modes.column_mode w = deccolm-OnScreen self w
  set_private_mode-OnScreen self _ w = w

  pub unset_private_mode-OnScreen :
      (self : Term x) (mode : PrivateMode)
      → OnScreen self
      → OnScreen (Modes.unset_private_mode self mode)
  unfolding Modes.unset_private_mode Modes.unset_mouse Modes.set_blinking
  unset_private_mode-OnScreen self Modes.swap_screen_and_set_restore_cursor w =
      either-OnScreen (has_mode self Mode.alt_screen) (Screen.swap_alt self) self
        (swap_alt-OnScreen self w) w
  unset_private_mode-OnScreen self Modes.column_mode w = deccolm-OnScreen self w
  unset_private_mode-OnScreen self _ w = w

  pub set_mode-OnScreen :
      (self : Term x) (mode : PublicMode) → OnScreen self → OnScreen (Modes.set_mode self mode)
  unfolding Modes.set_mode
  set_mode-OnScreen self Modes.insert w = w
  set_mode-OnScreen self _ w = w

  pub unset_mode-OnScreen :
      (self : Term x) (mode : PublicMode) → OnScreen self → OnScreen (Modes.unset_mode self mode)
  unfolding Modes.unset_mode mark_fully_damaged
  unset_mode-OnScreen self Modes.insert w = w
  unset_mode-OnScreen self _ w = w
