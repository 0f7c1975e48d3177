-- ===== src/Grid/Cell.antt =====
-- The traits `GridCell` and `ResetDiscriminant` (velacritty_terminal/src/grid/mod.rs and
-- term/cell.rs) as an interface, with the laws that the grid relies on.
use velacritty.Prelude.{◌≡◌, Bool, true}

-- `ResetDiscriminant` is used only to compare two cells: `same_discriminant a b` stands for
-- `a.discriminant() == b.discriminant()`.
pub record GridCell {ℓ} (T : Type ℓ) : Type ℓ where
  pub default : T
  pub is_empty : T → Bool
  pub reset : T → T → T
  pub same_discriminant : T → T → Bool

-- What a reset leaves depends on the template's discriminant alone.
pub record IsLawful {ℓ} {T : Type ℓ} (g : GridCell T) : Type ℓ where
  pub reset_any : (a b t : T) → g.reset a t ≡ g.reset b t
  pub reset_same :
      (a t u : T) → g.same_discriminant (g.reset a t) u ≡ true → g.reset a t ≡ g.reset a u
  pub reset_default : (a : T) → g.reset a g.default ≡ g.default
