-- ===== src/Term/Stacks.antt =====
-- The titles and the keyboard modes with their stacks (velacritty_terminal/src/term/mod.rs).
pub mod Titles
pub mod Keyboard
use velacritty.Prelude.{
  ℕ, ◌-◌, Bool, not, Option, none, some, List, [], ◌∷◌, ◌++◌, leb, if◌then◌else◌, length, take,
  drop,
}
use velacritty.Prelude.Bitflags
use velacritty.Prelude.Bitflags.{Bits}
use velacritty.Term.External.{External}
use velacritty.Term.Mode
use velacritty.Term.State
use velacritty.Term.State.{Term, Event, send_event}

abbrev pub title_stack_max_depth : ℕ
title_stack_max_depth = 4096

abbrev pub keyboard_mode_stack_max_depth : ℕ
keyboard_mode_stack_max_depth = title_stack_max_depth

pub data KeyboardModesApplyBehavior : Type 0 where
  replace union difference : KeyboardModesApplyBehavior

-- `Vec::pop`; the top of a stack is the end of its list.
unfoldable pub pop {ℓ} : {A : Type ℓ} → List A → Option (A × List A)
pop [] = none
pop (x ∷ xs) = elim (pop xs) [ none ↦ some (x, []) | some (y, ys) ↦ some (y, x ∷ ys) ]

-- `.last().copied().unwrap_or(a)`.
unfoldable pub last_or {ℓ} : {A : Type ℓ} → List A → A → A
last_or [] a = a
last_or (x ∷ xs) a = last_or xs x

abbrev pub new_mode : Bits → Bits → KeyboardModesApplyBehavior → Bits
new_mode active mode replace = mode
new_mode active mode union = Bitflags.union active mode
new_mode active mode difference = Bitflags.difference active mode

module _ {x : External} where
  abbrev pub title_event : Option x.Text → Event x
  title_event none = State.reset_title
  title_event (some title) = State.title title

  unfoldable pub set_title : Term x → Option x.Text → Term x
  set_title self title = send_event (record self { title = title }) (title_event title)

  unfoldable pub push_title : Term x → Term x
  push_title self =
      let kept =
        if leb title_stack_max_depth (length self.title_stack)
        then drop 1 self.title_stack
        else self.title_stack in
      record self { title_stack = kept ++ (self.title ∷ []) }

  unfoldable pub pop_title : Term x → Term x
  unfolding pop set_title
  pop_title self = elim (pop self.title_stack) [
    | none ↦ self
    | some (popped, rest) ↦ set_title (record self { title_stack = rest }) popped
  ]

  -- `Term::set_keyboard_mode`.
  unfoldable pub apply_keyboard_mode : Term x → Bits → KeyboardModesApplyBehavior → Term x
  apply_keyboard_mode self mode apply =
      let active = Bitflags.keep self.mode Mode.kitty_keyboard_protocol in
      record self {
        mode =
            Bitflags.union (Bitflags.remove_all self.mode Mode.kitty_keyboard_protocol)
              (new_mode active mode apply);
      }

  -- The stack of the titles after a push on a full stack of keyboard modes; `none` is the panic of
  -- `remove` on an empty vector.
  unfoldable pub make_room : Term x → Option (List (Option x.Text))
  make_room self =
      if leb keyboard_mode_stack_max_depth (length self.keyboard_mode_stack)
      then elim self.title_stack [ [] ↦ none | title ∷ titles ↦ some titles ]
      else some self.title_stack

  unfoldable pub push_keyboard_mode : Term x → x.KeyboardModes → Option (Term x)
  unfolding make_room apply_keyboard_mode
  push_keyboard_mode self mode =
      if not self.config.kitty_keyboard then some self else elim (make_room self) [
        | none ↦ none
        | some titles ↦
            let pushed : Term x = record self {
              title_stack = titles;
              keyboard_mode_stack = self.keyboard_mode_stack ++ (mode ∷ []);
            } in
            some (apply_keyboard_mode pushed (Mode.from_keyboard_modes x mode) replace)
      ]

  unfoldable pub pop_keyboard_modes : Term x → ℕ → Term x
  unfolding last_or apply_keyboard_mode
  pop_keyboard_modes self to_pop =
      let stack = take (length self.keyboard_mode_stack - to_pop) self.keyboard_mode_stack in
      if not self.config.kitty_keyboard
      then self
      else apply_keyboard_mode (record self { keyboard_mode_stack = stack })
          (Mode.from_keyboard_modes x (last_or stack x.no_mode)) replace

  -- `Handler::set_keyboard_mode`.
  unfoldable pub set_keyboard_mode : Term x → x.KeyboardModes → KeyboardModesApplyBehavior → Term x
  unfolding apply_keyboard_mode
  set_keyboard_mode self mode apply =
      if not self.config.kitty_keyboard
      then self
      else apply_keyboard_mode self (Mode.from_keyboard_modes x mode) apply
