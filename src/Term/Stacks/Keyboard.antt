-- ===== src/Term/Stacks/Keyboard.antt =====
-- The stack of keyboard modes, with room and when it is full.
use velacritty.Prelude.{
  ℕ, ◌-◌, ◌≤◌, ◌<◌, ◌≡◌, Bool, true, false, not, ◌||◌, Option, none, some, List, [], ◌∷◌, ◌++◌, leb,
  if◌then◌else◌, length, take, refl, ap, ◌∙◌, arith, Bool-cases, inl, inr, length-append,
  take-append, take-all,
}
use velacritty.Prelude.Bitflags
use velacritty.Prelude.Bitflags.{Bits}
use velacritty.Term.External.{External}
use velacritty.Term.Mode
use velacritty.Term.State.{Term}
use velacritty.Term.Stacks.{
  last_or, make_room, push_keyboard_mode, pop_keyboard_modes, apply_keyboard_mode,
  keyboard_mode_stack_max_depth, replace,
}

take-last :
    {A : Type 0} (xs : List A) (a : A) → take (length (xs ++ (a ∷ [])) - 1) (xs ++ (a ∷ [])) ≡ xs
take-last xs a =
    ap (λ n. take n (xs ++ (a ∷ []))) {x = length (xs ++ (a ∷ [])) - 1} {y = length xs}
      (omega (arith, length-append xs (a ∷ [])))
    ∙ take-append (length xs) xs (a ∷ []) (omega arith)
    ∙ take-all (length xs) xs (omega arith)

if_if : (b u v w : Bool) → (if b then u else if b then v else w) ≡ (if b then u else w)
if_if true u v w = refl
if_if false u v w = refl

pub or_false : (b : Bool) → (b || false) ≡ b
or_false true = refl
or_false false = refl

module _ (x : External) where
  pub from_keyboard_modes_outside :
      (value : x.KeyboardModes) (k : ℕ)
      → Bitflags.member Mode.kitty_keyboard_protocol k ≡ false
      → Mode.from_keyboard_modes x value k ≡ false
  unfolding Mode.from_keyboard_modes
  from_keyboard_modes_outside value k h = ground arith

module _ {x : External} where
  -- The bits of the protocol are those of the new mode, the others stay.
  pub mode-apply :
      (self : Term x) (value : x.KeyboardModes) (k : ℕ)
      → (apply_keyboard_mode self (Mode.from_keyboard_modes x value) replace).mode k ≡ (
          if Bitflags.member Mode.kitty_keyboard_protocol k
          then Mode.from_keyboard_modes x value k
          else self.mode k)
  unfolding apply_keyboard_mode
  mode-apply self value k = elim (Bool-cases (Bitflags.member Mode.kitty_keyboard_protocol k)) [
    | inl e ↦ rw e refl
    | inr e ↦ rw (e, from_keyboard_modes_outside x value k e) (or_false (self.mode k))
  ]

module _ {x : External} where
  -- The terminal with another mode on the stack, and other titles.
  abbrev with_mode : Term x → List (Option x.Text) → x.KeyboardModes → Term x
  with_mode self titles mode =
      apply_keyboard_mode
        (record self {
          title_stack = titles;
          keyboard_mode_stack = self.keyboard_mode_stack ++ (mode ∷ []);
        })
        (Mode.from_keyboard_modes x mode) replace

  push_lem :
      (self : Term x) (mode : x.KeyboardModes) (titles : List (Option x.Text))
      → self.config.kitty_keyboard ≡ true
      → make_room self ≡ some titles
      → push_keyboard_mode self mode ≡ some (with_mode self titles mode)
  unfolding push_keyboard_mode
  push_lem self mode titles e r =
      ap
        (λ b. if not b then some self else elim (make_room self) [
          | none ↦ none
          | some titles ↦ some (with_mode self titles mode)
        ])
        e
      ∙ ap (λ o. elim o [ none ↦ none | some titles ↦ some (with_mode self titles mode) ]) r

  pop_lem :
      (self : Term x)
      → self.config.kitty_keyboard ≡ true
      → pop_keyboard_modes self 1 ≡ (
          let stack = take (length self.keyboard_mode_stack - 1) self.keyboard_mode_stack in
          apply_keyboard_mode
            (record self { keyboard_mode_stack = stack })
            (Mode.from_keyboard_modes x (last_or stack x.no_mode))
            replace)
  unfolding pop_keyboard_modes
  pop_lem self e =
      let stack = take (length self.keyboard_mode_stack - 1) self.keyboard_mode_stack in
      ap
        (λ b.
          if not b
          then self
          else apply_keyboard_mode (record self { keyboard_mode_stack = stack })
              (Mode.from_keyboard_modes x (last_or stack x.no_mode)) replace)
        e

  -- After `push_keyboard_mode` on a stack with room, `pop_keyboard_modes` of one brings the stack
  -- back and leaves the titles alone; the bits of the keyboard protocol are then those of the
  -- stack's top, or none for an empty stack, and all other bits of the mode are as they were.
  pub pop_keyboard_modes-push_keyboard_mode :
      (self : Term x) (mode : x.KeyboardModes) (k : ℕ)
      → self.config.kitty_keyboard ≡ true
      → length self.keyboard_mode_stack < keyboard_mode_stack_max_depth
      → (pushed : Term x) × (push_keyboard_mode self mode ≡ some pushed)
        × ((pop_keyboard_modes pushed 1).keyboard_mode_stack ≡ self.keyboard_mode_stack)
        × ((pop_keyboard_modes pushed 1).title_stack ≡ self.title_stack)
        × ((pop_keyboard_modes pushed 1).mode k ≡ (
            if Bitflags.member Mode.kitty_keyboard_protocol k
            then Mode.from_keyboard_modes x (last_or self.keyboard_mode_stack x.no_mode) k
            else self.mode k))
  unfolding make_room apply_keyboard_mode
  pop_keyboard_modes-push_keyboard_mode self mode k e h =
      let room : leb keyboard_mode_stack_max_depth (length self.keyboard_mode_stack) ≡ false =
        ground arith in
      let pushed = with_mode self self.title_stack mode in
      let popped = pop_lem pushed e in
      let base : Term x = record self {
        keyboard_mode_stack = self.keyboard_mode_stack ++ (mode ∷ []);
      } in
      let inside = Bitflags.member Mode.kitty_keyboard_protocol k in
      let top = Mode.from_keyboard_modes x (last_or self.keyboard_mode_stack x.no_mode) k in
      let rest = take (length pushed.keyboard_mode_stack - 1) pushed.keyboard_mode_stack in
      let stack = take-last self.keyboard_mode_stack mode in
      (
        pushed,
        push_lem self mode self.title_stack e (rw (make_room, room) refl),
        ap (λ (t : Term x). t.keyboard_mode_stack) popped ∙ stack,
        ap (λ (t : Term x). t.title_stack) popped,
        ap (λ (t : Term x). t.mode k) popped
            ∙ mode-apply pushed (last_or rest x.no_mode) k
            ∙ ap
                (λ l.
                  if inside
                  then Mode.from_keyboard_modes x (last_or l x.no_mode) k
                  else pushed.mode k)
                stack
            ∙ ap (λ b. if inside then top else b) (mode-apply base mode k)
            ∙ if_if inside top (Mode.from_keyboard_modes x mode k) (self.mode k),
      )

  -- `push_keyboard_mode` on a stack that has reached its maximum depth takes the bottom title off
  -- the stack of titles, where there is one, and the stack of keyboard modes grows past the
  -- maximum depth.
  pub push_keyboard_mode-full :
      (self : Term x) (mode : x.KeyboardModes) (title : Option x.Text)
      (titles : List (Option x.Text))
      → self.config.kitty_keyboard ≡ true
      → keyboard_mode_stack_max_depth ≤ length self.keyboard_mode_stack
      → self.title_stack ≡ title ∷ titles
      → (pushed : Term x) × (push_keyboard_mode self mode ≡ some pushed)
        × (pushed.title_stack ≡ titles)
        × (keyboard_mode_stack_max_depth < length pushed.keyboard_mode_stack)
  unfolding make_room apply_keyboard_mode
  push_keyboard_mode-full self mode title titles e h t =
      let full : leb keyboard_mode_stack_max_depth (length self.keyboard_mode_stack) ≡ true =
        ground arith in
      (
        with_mode self titles mode,
        push_lem self mode titles e (rw (make_room, full, t) refl),
        refl,
        omega (arith, h, length-append self.keyboard_mode_stack (mode ∷ [])),
      )
