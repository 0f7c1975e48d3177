-- ===== src/Term/Screen/Swap.antt =====
-- To the alternate screen and back.
use velacritty.Prelude.{◌≡◌, Bool, true, false, refl, ap, ◌∙◌, not}
use velacritty.Grid.Clear
use velacritty.Term.Cell.{cell}
use velacritty.Term.External.{External}
use velacritty.Term.Mode
use velacritty.Term.Screen.{swap_alt, enter_alt}
use velacritty.Term.Stacks.{apply_keyboard_mode}
use velacritty.Term.Stacks.Keyboard.{or_false}
use velacritty.Term.State.{Term, has_mode, mark_fully_damaged}

module _ {x : External} where
  -- The keyboard modes of a terminal do not touch the bit of the alternate screen.
  alt_bit :
      (self : Term x) (b : Bool)
      → has_mode self Mode.alt_screen ≡ b
      → has_mode (swap_alt self) Mode.alt_screen ≡ not b
  unfolding swap_alt apply_keyboard_mode mark_fully_damaged Mode.from_keyboard_modes enter_alt
  alt_bit self true e = rw e (ap not (or_false (self.mode Mode.alt_screen) ∙ e))
  alt_bit self false e = rw e (ap not (or_false (self.mode Mode.alt_screen) ∙ e))

  entered :
      (self : Term x)
      → has_mode self Mode.alt_screen ≡ false
      → (swap_alt self).grid.cursor ≡ self.grid.cursor
  unfolding swap_alt apply_keyboard_mode mark_fully_damaged enter_alt Clear.reset_region
  entered self e = rw e refl

  left_grid :
      (self : Term x)
      → has_mode self Mode.alt_screen ≡ false
      → (swap_alt self).inactive_grid ≡ record self.grid { saved_cursor = self.grid.cursor }
  unfolding swap_alt apply_keyboard_mode mark_fully_damaged enter_alt
  left_grid self e = rw e refl

  back :
      (self : Term x)
      → has_mode self Mode.alt_screen ≡ true
      → (swap_alt self).grid ≡ self.inactive_grid
  unfolding swap_alt apply_keyboard_mode mark_fully_damaged
  back self e = rw e refl

  stack_in :
      (self : Term x) → (swap_alt self).keyboard_mode_stack ≡ self.inactive_keyboard_mode_stack
  unfolding swap_alt apply_keyboard_mode mark_fully_damaged
  stack_in self = refl

  stack_out :
      (self : Term x) → (swap_alt self).inactive_keyboard_mode_stack ≡ self.keyboard_mode_stack
  unfolding swap_alt apply_keyboard_mode mark_fully_damaged
  stack_out self = refl

  -- On the primary screen `swap_alt` goes to the alternate one, with the cursor where it was; a
  -- second `swap_alt` brings the primary grid and both stacks of keyboard modes back. The primary
  -- grid's saved cursor is then its cursor.
  pub swap_alt-swap_alt :
      (self : Term x)
      → has_mode self Mode.alt_screen ≡ false
      → (has_mode (swap_alt self) Mode.alt_screen ≡ true)
        × ((swap_alt self).grid.cursor ≡ self.grid.cursor)
        × (has_mode (swap_alt (swap_alt self)) Mode.alt_screen ≡ false)
        × ((swap_alt (swap_alt self)).grid ≡ record self.grid { saved_cursor = self.grid.cursor })
        × ((swap_alt (swap_alt self)).keyboard_mode_stack ≡ self.keyboard_mode_stack)
        × ((swap_alt (swap_alt self)).inactive_keyboard_mode_stack
            ≡ self.inactive_keyboard_mode_stack)
  swap_alt-swap_alt self e =
      let there = alt_bit self false e in
      (
        there,
        entered self e,
        alt_bit (swap_alt self) true there,
        back (swap_alt self) there ∙ left_grid self e,
        stack_in (swap_alt self) ∙ stack_out self,
        stack_out (swap_alt self) ∙ stack_in self,
      )
