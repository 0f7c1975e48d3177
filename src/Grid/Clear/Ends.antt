-- ===== src/Grid/Clear/Ends.antt =====
-- The loop of `Grid::clear_viewport` ends.
use velacritty.Prelude.{
  ℕ, zero, suc, ◌+◌, ◌*◌, ◌≤◌, ◌<◌, ◌^◌, ◌≡◌, Bool, true, false, not, ◌&&◌, Option, none, some,
  refl, ap, ◌∙◌, sym, arith, Bool-cases, inl, inr, if◌then◌else◌,
}
use velacritty.Prelude.Int.{ℤ, pos, negsuc, pos_part, ltb_ℤ, ◌-ℤ◌, ◌≤ℤ◌}
use velacritty.Prelude.Word.{i32_of, i32_wrap, usize_sub, ◌-ᵢ◌}
use velacritty.Index.{Point, last_column, topmost_line}
use velacritty.Index.Points.{le_point}
use velacritty.Grid.{Grid, dimensions}
use velacritty.Grid.Cell.{GridCell}
use velacritty.Grid.Cells.{GridIterator, Indexed, at_point, backward, index, iter_from, prev}
use velacritty.Grid.Clear.{goes_on, scan_back}

-- A place of the screen, or of the line above it, with its number of cells before it.
abbrev before : ℕ → Point → ℕ
before columns point = pos_part point.line * columns + point.column

backward_lem :
    (columns l c : ℕ)
    → 0 < columns
    → columns < 2 ^ 31
    → l < 2 ^ 31
    → c ≤ columns
    → ltb_ℤ (backward (usize_sub columns 1) (record { line = pos l; column = c })).line (pos 0)
      ≡ false
    → (pos 0 ≤ℤ (backward (usize_sub columns 1) (record { line = pos l; column = c })).line)
      × (pos_part (backward (usize_sub columns 1) (record { line = pos l; column = c })).line ≤ l)
      × ((backward (usize_sub columns 1) (record { line = pos l; column = c })).column ≤ columns)
      × (before columns (backward (usize_sub columns 1) (record { line = pos l; column = c })) + 1
          ≡ l * columns + c)
unfolding backward ◌-ᵢ◌ ◌-ℤ◌ i32_wrap
backward_lem columns zero zero h k m n e = ground arith
backward_lem columns (suc l) zero h k m n e = ground arith
backward_lem columns l (suc c) h k m n e = ground arith

back_lem :
    (columns : ℕ) (z : ℤ) (c : ℕ)
    → 0 < columns
    → columns < 2 ^ 31
    → pos 0 ≤ℤ z
    → pos_part z < 2 ^ 31
    → c ≤ columns
    → ltb_ℤ (backward (usize_sub columns 1) (record { line = z; column = c })).line (pos 0) ≡ false
    → (pos 0 ≤ℤ (backward (usize_sub columns 1) (record { line = z; column = c })).line)
      × (pos_part (backward (usize_sub columns 1) (record { line = z; column = c })).line
          ≤ pos_part z)
      × ((backward (usize_sub columns 1) (record { line = z; column = c })).column ≤ columns)
      × (before columns (backward (usize_sub columns 1) (record { line = z; column = c })) + 1
          ≡ pos_part z * columns + c)
back_lem columns (pos l) c h k m n o e = backward_lem columns l c h k n o e
back_lem columns (negsuc l) c h k m n o e = absurd (omega (arith, m))

line-backward :
    (last : ℕ) (z : ℤ) (c : ℕ)
    → pos 0 ≤ℤ z
    → pos_part z < 2 ^ 31
    → (negsuc 0 ≤ℤ (backward last (record { line = z; column = c })).line)
      × (pos_part (backward last (record { line = z; column = c })).line ≤ pos_part z)
unfolding backward ◌-ᵢ◌ ◌-ℤ◌ i32_wrap
line-backward last (pos l) c h k = ground arith
line-backward last (negsuc l) c h k = absurd (omega (arith, h))

last_line :
    (n : ℕ)
    → 0 < n
    → n < 2 ^ 31
    → (pos 0 ≤ℤ i32_of n -ᵢ pos 1) × (pos_part (i32_of n -ᵢ pos 1) + 1 ≡ n)
unfolding i32_of ◌-ᵢ◌ ◌-ℤ◌ i32_wrap
last_line n h k = ground arith

cells_lem : (n m a : ℕ) → a + 1 ≡ n → a * m + m ≡ n * m
cells_lem n m a e = rw (sym e) (omega arith)

and_true : (a b : Bool) → a && not b ≡ true → b ≡ false
and_true a b h = ground arith

module _ {ℓ} {T C : Type ℓ} ⦃g : GridCell T⦄ where
  abbrev back : GridIterator T C → Point
  back iter = backward (usize_sub iter.grid.columns 1) iter.point

  at_point-step :
      (iter : GridIterator T C) (p : Point) (o : Option T)
      → index iter.grid p ≡ o
      → goes_on (at_point iter p).0 ≡ true
      → ltb_ℤ p.line (pos 0) ≡ false
  unfolding at_point
  at_point-step iter p none e h =
      let stopped : goes_on (at_point iter p).0 ≡ false = rw (at_point, e) refl in cc
  at_point-step iter p (some cell) e h =
      let same : goes_on (at_point iter p).0 ≡ (g.is_empty cell && not (ltb_ℤ p.line (pos 0))) =
        rw (at_point, e) refl in
      and_true (g.is_empty cell) (ltb_ℤ p.line (pos 0)) (sym same ∙ h)

  abbrev at_top : GridIterator T C → Bool
  at_top iter =
      le_point iter.point (record { line = topmost_line (dimensions iter.grid); column = 0 })

  prev-stops : (iter : GridIterator T C) → at_top iter ≡ true → prev iter ≡ (none, iter)
  unfolding prev last_column
  prev-stops iter e =
      ap {B = Option (Indexed T) × GridIterator T C}
        (λ b. if b then (none, iter) else at_point iter (back iter)) e

  prev-moves :
      (iter : GridIterator T C) → at_top iter ≡ false → prev iter ≡ at_point iter (back iter)
  unfolding prev last_column
  prev-moves iter e =
      ap {B = Option (Indexed T) × GridIterator T C}
        (λ b. if b then (none, iter) else at_point iter (back iter)) e

  -- A round that goes on moves to the place before, on the screen.
  prev-step :
      (iter : GridIterator T C)
      → goes_on (prev iter).0 ≡ true
      → (ltb_ℤ (back iter).line (pos 0) ≡ false)
        × ((prev iter).1 ≡ record iter { point = back iter })
  unfolding at_point
  prev-step iter h = elim (Bool-cases (at_top iter)) [
    | inl e ↦
        let stopped : goes_on (prev iter).0 ≡ false = ap (λ r. goes_on r.0) (prev-stops iter e) in
        absurd cc
    | inr e ↦
        let moves = prev-moves iter e in
        (
          at_point-step iter (back iter) (index iter.grid (back iter)) refl
              (sym (ap (λ r. goes_on r.0) moves) ∙ h),
          ap (λ r. r.1) moves,
        )
  ]

  -- The loop is still on the screen.
  record IsOn (iter : GridIterator T C) : Type ℓ where
    some_column : 0 < iter.grid.columns
    column_fits : iter.grid.columns < 2 ^ 31
    above : pos 0 ≤ℤ iter.point.line
    line_fits : pos_part iter.point.line < 2 ^ 31
    within : iter.point.column ≤ iter.grid.columns

  -- A round ends on the screen or on the line above it.
  line-prev :
      (iter : GridIterator T C)
      → pos 0 ≤ℤ iter.point.line
      → pos_part iter.point.line < 2 ^ 31
      → (negsuc 0 ≤ℤ (prev iter).1.point.line)
        × (pos_part (prev iter).1.point.line ≤ pos_part iter.point.line)
  unfolding at_point
  line-prev iter h k = elim (Bool-cases (at_top iter)) [
    | inl e ↦ rw (prev-stops iter e) (omega (arith, h), omega arith)
    | inr e ↦
        rw (prev-moves iter e)
          (line-backward (usize_sub iter.grid.columns 1) iter.point.line iter.point.column h k)
  ]

  -- With more fuel than there are cells before the place, the loop ends.
  scan_back-some :
      (n : ℕ) (iter : GridIterator T C)
      → IsOn iter
      → before iter.grid.columns iter.point < n
      → (found : GridIterator T C) × (scan_back n iter ≡ some found)
        × (negsuc 0 ≤ℤ found.point.line)
        × (pos_part found.point.line ≤ pos_part iter.point.line)
  unfolding scan_back
  scan_back-some zero iter w f = absurd (omega (arith, f))
  scan_back-some (suc n) iter w f = elim (Bool-cases (goes_on (prev iter).0)) [
    | inr stop ↦
        let (low, high) = line-prev iter w.above w.line_fits in
        ((prev iter).1, rw (scan_back, stop) refl, low, high)
    | inl on ↦
        let (on_screen, same) = prev-step iter on in
        let (lo, hi, column, less) =
          back_lem iter.grid.columns iter.point.line iter.point.column w.some_column w.column_fits
            w.above w.line_fits w.within on_screen in
        let (found, e, low, high) =
          scan_back-some n (record iter { point = back iter })
            (record {
              some_column = w.some_column;
              column_fits = w.column_fits;
              above = lo;
              line_fits = omega (arith, hi, w.line_fits);
              within = column;
            })
            (omega (arith, less, f)) in
        (found, rw (scan_back, on) (ap (scan_back n) same ∙ e), low, omega (arith, high, hi))
  ]

  -- The loop of `clear_viewport` ends within the rounds that the model gives it, at most on the last
  -- line of the screen and at least on the line above the screen, for every grid that has lines and
  -- columns, fewer than 2 ^ 31 of each.
  pub scan_back-clear_viewport :
      (self : Grid T C)
      → 0 < self.lines
      → 0 < self.columns
      → self.lines < 2 ^ 31
      → self.columns < 2 ^ 31
      → (found : GridIterator T C) × (scan_back
            (self.lines * self.columns + 1)
            (iter_from self (record { line = i32_of self.lines -ᵢ pos 1; column = self.columns }))
          ≡ some found)
        × (negsuc 0 ≤ℤ found.point.line)
        × (pos_part found.point.line < self.lines)
  unfolding iter_from
  scan_back-clear_viewport self h k m o =
      let (lo, hi) = last_line self.lines h m in
      let (found, e, low, high) =
        scan_back-some (self.lines * self.columns + 1)
          (iter_from self (record { line = i32_of self.lines -ᵢ pos 1; column = self.columns }))
          (record {
            some_column = k;
            column_fits = o;
            above = lo;
            line_fits = omega (arith, hi, m);
            within = omega arith;
          })
          (omega (arith, cells_lem self.lines self.columns _ hi)) in
      (found, e, low, omega (arith, high, hi))
