-- ===== src/Grid/Frame.antt =====
-- What scrolling and writing leave alone: the cursor and the size of a grid.
use velacritty.Prelude.{ℕ, ◌≡◌, arith}
use velacritty.Index.{Point}
use velacritty.Grid.Cell.{GridCell}
use velacritty.Grid.Cells.{update, index, index_mut}
use velacritty.Grid.{Grid, Region, scroll_up, scroll_down, move_up, follow, increase_scroll_limit}

module _ {ℓ} {T C : Type ℓ} where
  pub record SameFrame (before after : Grid T C) : Type ℓ where
    pub cursor : after.cursor ≡ before.cursor
    pub saved_cursor : after.saved_cursor ≡ before.saved_cursor
    pub lines : after.lines ≡ before.lines
    pub columns : after.columns ≡ before.columns

  pub index_mut-SameFrame :
      (self : Grid T C) (p : Point) (t : T) → SameFrame self (index_mut self p t)
  unfolding index_mut
  index_mut-SameFrame self p t = ground arith

  pub update-SameFrame :
      (self : Grid T C) (p : Point) (f : T → T) → SameFrame self (update self p f)
  unfolding update index index_mut
  update-SameFrame self p f = ground arith

module _ {ℓ} {T C : Type ℓ} ⦃g : GridCell T⦄ where
  pub scroll_up-SameFrame :
      (self : Grid T C) (region : Region) (n : ℕ) → SameFrame self (scroll_up self region n)
  unfolding scroll_up move_up follow increase_scroll_limit
  scroll_up-SameFrame self region n = ground arith

  pub scroll_down-SameFrame :
      (self : Grid T C) (region : Region) (n : ℕ) → SameFrame self (scroll_down self region n)
  unfolding scroll_down
  scroll_down-SameFrame self region n = ground arith
