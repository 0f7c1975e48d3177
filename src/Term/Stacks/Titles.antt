-- ===== src/Term/Stacks/Titles.antt =====
-- A title that is pushed comes back.
use velacritty.Prelude.{
  ◌≡◌, Option, none, some, List, [], ◌∷◌, ◌++◌, leb, if◌then◌else◌, length, drop, refl,
}
use velacritty.Term.External.{External}
use velacritty.Term.State
use velacritty.Term.State.{Term}
use velacritty.Term.Stacks.{pop, set_title, push_title, pop_title, title_stack_max_depth}

pub pop-append {ℓ} : {A : Type ℓ} (xs : List A) (a : A) → pop (xs ++ (a ∷ [])) ≡ some (a, xs)
unfolding pop
pop-append [] a = refl
pop-append (x ∷ xs) a = rw (pop-append xs a) refl

module _ {x : External} where
  -- `pop_title` after `push_title` and any change of the title: the title is the one that was pushed,
  -- the stack of titles is as it was, less the bottom title if it had reached its maximum depth, the
  -- events sent are that of the change and that of the title that is back (with the title, or a reset
  -- for none), in this order, and nothing else differs.
  pub pop_title-push_title :
      (self : Term x) (title : Option x.Text)
      → pop_title (set_title (push_title self) title) ≡ record self {
        title = self.title;
        title_stack =
            if leb title_stack_max_depth (length self.title_stack)
            then drop 1 self.title_stack
            else self.title_stack;
        event_proxy =
            (self.event_proxy
              ++ ((elim title [ none ↦ State.reset_title | some text ↦ State.title text ]) ∷ []))
            ++ ((elim self.title [ none ↦ State.reset_title | some text ↦ State.title text ]) ∷ []);
      }
  unfolding pop_title push_title set_title
  pop_title-push_title self title =
      let kept =
        if leb title_stack_max_depth (length self.title_stack)
        then drop 1 self.title_stack
        else self.title_stack in
      rw (pop_title, pop-append kept self.title) (unfold set_title in refl)
