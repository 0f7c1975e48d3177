-- ===== src/Index/Travel.antt =====
-- `Point::add` and `Point::sub` go along the cells of the grid, line by line.
use native.Mathlib.Nat.{
  add_comm, div-add-mod', mod-lt, mod-eq_of_lt, add-mod_left, mod-eq_of_lt, add-mod_left,
  add-mod-mod, mul-add-div_right, div-eq_of_lt, div-le_self,
}
use velacritty.Prelude.{
  ℕ, ◌+◌, ◌-◌, ◌*◌, ◌/◌, ◌%◌, ◌^◌, ◌≤◌, ◌<◌, ◌≡◌, sym, ap, ◌∙◌, inl, inr, ltb, Bool-cases, arith,
}
use velacritty.Prelude.Rings.{mod_ring}
use velacritty.Prelude.Int.{ℤ, pos, sub_ℕ, ◌+ℤ◌, ◌≤ℤ◌}
use velacritty.Prelude.Word.{
  FitsI32, i32_of-eq_pos, i32_wrap_fits, ◌+ᵢ◌, ◌-ᵢ◌, usize_add, usize_sub,
}
use velacritty.Index.{
  Boundary, cursor, grid, unbounded, Point, Dimensions, IsSized, topmost_line, bottommost_line,
}
use velacritty.Index.Bounds.{
  IsInside, grid_clamp_inside, last_column_lem, bottommost_line_lem, topmost_line_lem,
}
use velacritty.Index.Points.{add, sub}

-- Going back as many columns crosses as many line ends.
lines_back : (n c k : ℕ) → c < n → (k + n - 1 - (c + k) % n) / n ≡ (k + c) / n
lines_back n c k h =
    let q = (c + k) / n in
    let e : k + n - 1 - (c + k) % n ≡ q * n + (n - 1 - c) =
      omega (arith, div-add-mod' (c + k) n, mod-lt (c + k) {m = n} (omega arith)) in
    ap (λ x. x / n) e
    ∙ mul-add-div_right {m = n} (omega arith) q (n - 1 - c)
    ∙ ap (λ x. q + x) (div-eq_of_lt {n = n - 1 - c} {m = n} (omega arith))
    ∙ (let f : q + 0 ≡ (k + c) / n = omega (arith, ap (λ x. x / n) (add_comm c k)) in f)

-- And ends in the column where it began.
column_back : (n c k : ℕ) → c < n → (n + (c + k) % n - k % n) % n ≡ c
column_back n c k h =
    let b = k % n in
    let hb : b < n = mod-lt k {m = n} (omega arith) in
    let r : (c + k) % n ≡ (c + b) % n = sym (add-mod-mod c k n) in
    rw (r, mod_ring (c + b) n (omega arith))
      (elim (Bool-cases (ltb (c + b) n)) [
        | inl t ↦ rw t (
            ap (λ x. x % n) (let e : n + (c + b) - b ≡ n + c = omega arith in e)
            ∙ add-mod_left n c
            ∙ mod-eq_of_lt h)
        | inr t ↦
            let over : n ≤ c + b = ground arith in
            rw t (
              ap (λ x. x % n) (let e : n + (c + b - n) - b ≡ c = omega arith in e) ∙ mod-eq_of_lt h)
      ])

line_back : (l : ℤ) (q : ℕ) → FitsI32 l → l +ℤ pos q -ᵢ pos q ≡ l
unfolding ◌+ℤ◌ ◌-ᵢ◌
line_back l q f = ground arith

line_forth : (l : ℤ) (q : ℕ) → FitsI32 (l +ℤ pos q) → l +ᵢ pos q ≡ l +ℤ pos q
unfolding ◌+ᵢ◌
line_forth l q g = i32_wrap_fits (l +ℤ pos q) g

range-FitsI32 :
    (m n : ℕ) (l : ℤ) → m ≤ n → n < 2 ^ 31 → sub_ℕ m n ≤ℤ l → l ≤ℤ pos (m - 1) → FitsI32 l
range-FitsI32 m n l h f lo hi = ground arith

-- A line of the grid is well inside the range of an `i32`.
inside-FitsI32 :
    {d : Dimensions} (b : Boundary) {p : Point} → IsSized d → IsInside d b p → FitsI32 p.line
inside-FitsI32 {d} cursor {p} s i =
    let hi : p.line ≤ℤ bottommost_line d = i.line_hi in
    range-FitsI32 d.screen_lines d.total_lines p.line s.screen_in s.total_fits
      (let lo : pos 0 ≤ℤ p.line = i.line_lo in ground (arith, s)) (rw (bottommost_line_lem s) at hi)
inside-FitsI32 {d} grid {p} s i =
    let hi : p.line ≤ℤ bottommost_line d = i.line_hi in
    let lo : topmost_line d ≤ℤ p.line = i.line_lo in
    range-FitsI32 d.screen_lines d.total_lines p.line s.screen_in s.total_fits
      (rw (topmost_line_lem s) at lo) (rw (bottommost_line_lem s) at hi)
inside-FitsI32 {d} unbounded {p} s i =
    let hi : p.line ≤ℤ bottommost_line d = i.line_hi in
    let lo : topmost_line d ≤ℤ p.line = i.line_lo in
    range-FitsI32 d.screen_lines d.total_lines p.line s.screen_in s.total_fits
      (rw (topmost_line_lem s) at lo) (rw (bottommost_line_lem s) at hi)

-- The point that is `rhs` cells further on: as many lines down as line ends are crossed.
abbrev pub forward : Dimensions → Point → ℕ → Point
forward d p rhs = record {
  line = p.line +ℤ pos ((rhs + p.column) / d.columns);
  column = (p.column + rhs) % d.columns;
}

module _ {d : Dimensions} (s : IsSized d) (b : Boundary) (p : Point) (i : IsInside d b p) (rhs : ℕ)
    (fits : rhs + d.columns < 2 ^ 31) (j : IsInside d b (forward d p rhs)) where
  column_lt : p.column < d.columns
  column_lt = omega (arith, i, s, last_column_lem s)

  crossed-lt : (rhs + p.column) / d.columns < 2 ^ 31
  crossed-lt = omega (arith, div-le_self (rhs + p.column) d.columns, column_lt)

  -- `add` goes on along the cells, if the cell that it comes to is inside.
  pub add_lem : add p d b rhs ≡ forward d p rhs
  unfolding add
  add_lem =
      let q = (rhs + p.column) / d.columns in
      let m : usize_add rhs p.column ≡ rhs + p.column = omega (arith, column_lt, fits) in
      let m' : usize_add p.column rhs ≡ p.column + rhs = omega (arith, column_lt, fits) in
      rw (m, m', i32_of-eq_pos q crossed-lt, line_forth p.line q (inside-FitsI32 b s j))
        (grid_clamp_inside b (forward d p rhs) s j)

  -- `sub` goes back to where `add` came from, if the cell it started from and the cell that `add`
  -- comes to are inside the boundary, and the count and the columns are below 2 ^ 31 together.
  pub sub-add : sub (add p d b rhs) d b rhs ≡ p
  unfolding sub
  sub-add =
      let n = d.columns in
      let c = p.column in
      let q = (rhs + c) / n in
      let r = (c + rhs) % n in
      let hr : r < n = mod-lt (c + rhs) {m = n} s.some_column in
      let hb : rhs % n < n = mod-lt rhs {m = n} s.some_column in
      let m : usize_sub (usize_add rhs n) 1 ≡ rhs + n - 1 = omega (arith, s, fits) in
      let m' : usize_sub (usize_add n r) (rhs % n) ≡ n + r - rhs % n = omega (arith, s) in
      rw
        (
          add_lem,
          m,
          m',
          lines_back n c rhs column_lt,
          column_back n c rhs column_lt,
          i32_of-eq_pos q crossed-lt,
          line_back p.line q (inside-FitsI32 b s i),
        )
        (grid_clamp_inside b p s i)
