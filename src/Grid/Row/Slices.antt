-- ===== src/Grid/Row/Slices.antt =====
-- velacritty_terminal/src/grid/row.rs: writes to a part of a row, through `IndexMut` of a range.
use velacritty.Prelude.{ℕ, List, max, length}
use velacritty.Prelude.Shifts.{fill}
use velacritty.Grid.Row.{Row}

module _ {ℓ} {T : Type ℓ} where
  -- `for cell in &mut row[start..end] { *cell = v }`.
  unfoldable pub fill_range : Row T → ℕ → ℕ → T → Row T
  fill_range row start end v = record { inner = fill start end v row.inner; occ = max row.occ end }

  -- The same with `..end`.
  unfoldable pub fill_to : Row T → ℕ → T → Row T
  fill_to row end v = record { inner = fill 0 end v row.inner; occ = max row.occ end }

  -- The same with `start..`.
  unfoldable pub fill_from : Row T → ℕ → T → Row T
  fill_from row start v = record {
    inner = fill start (length row.inner) v row.inner;
    occ = length row.inner;
  }

  -- `&mut row[..]`, changed by `f`.
  unfoldable pub all_mut : Row T → (List T → List T) → Row T
  all_mut row f = record { inner = f row.inner; occ = length row.inner }
