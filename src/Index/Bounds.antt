-- ===== src/Index/Bounds.antt =====
-- Where clamping leaves a point.
use velacritty.Prelude.{
  ℕ, ◌+◌, ◌-◌, ◌^◌, ◌≤◌, ◌<◌, ◌%◌, ◌≡◌, inl, inr, Bool-cases, suc, true, false, sym, ap, ◌∙◌, arith,
  min,
}
use native.Mathlib.Nat.{mod-eq_of_lt}
use velacritty.Prelude.Int.{ℤ, pos, ◌-ℤ◌, -ℤ_parts, sub_ℕ, pos_part, neg_part, ◌≤ℤ◌, ltb_ℤ}
use velacritty.Prelude.Word.{FitsI32, i32_of-eq_pos, i32_of, ◌+ᵢ◌, ◌-ᵢ◌}
use velacritty.Index.{
  Boundary, cursor, grid, unbounded, Point, Dimensions, IsSized, rem_ℤ, last_column, topmost_line,
  bottommost_line,
}
use velacritty.Index.Lines
use velacritty.Index.Points

pub topmost_line_lem :
    {d : Dimensions} → IsSized d → topmost_line d ≡ sub_ℕ d.screen_lines d.total_lines
unfolding topmost_line i32_of ◌-ᵢ◌
topmost_line_lem s = ground arith

pub bottommost_line_lem :
    {d : Dimensions} → IsSized d → bottommost_line d ≡ pos (d.screen_lines - 1)
unfolding bottommost_line i32_of ◌-ᵢ◌
bottommost_line_lem s = ground arith

pub last_column_lem : {d : Dimensions} → IsSized d → last_column d ≡ d.columns - 1
unfolding last_column
last_column_lem s = omega arith

-- The topmost line that a boundary allows.
abbrev pub first_line : Dimensions → Boundary → ℤ
first_line d cursor = pos 0
first_line d _ = topmost_line d

-- A point of the area that a boundary allows.
pub record IsInside (d : Dimensions) (b : Boundary) (p : Point) : Type 0 where
  pub line_lo : first_line d b ≤ℤ p.line
  pub line_hi : p.line ≤ℤ bottommost_line d
  pub column_hi : p.column ≤ last_column d

rem_above : (k n : ℕ) → rem_ℤ (pos k) (pos n) ≡ pos (k % n)
unfolding rem_ℤ
rem_above k n = let e : n + 0 ≡ n = omega arith in rw e

rem_below : (k n : ℕ) → 0 < n → rem_ℤ (sub_ℕ 0 k) (pos n) ≡ sub_ℕ 0 (k % n)
unfolding rem_ℤ
rem_below k n h = ground (arith, mod-eq_of_lt {n = 0} {m = n} h)

distance_below : (m k : ℕ) → m < 2 ^ 31 → k < 2 ^ 31 → sub_ℕ m (suc k) -ᵢ pos m +ᵢ pos 1 ≡ sub_ℕ 0 k
unfolding ◌-ᵢ◌ ◌+ᵢ◌
distance_below m k hm hk = ground arith

back_below :
    (m k : ℕ) → 0 < m → m < 2 ^ 31 → k < 2 ^ 31 → pos (m - 1) +ᵢ sub_ℕ 0 k ≡ sub_ℕ m (suc k)
unfolding ◌+ᵢ◌
back_below m k h hm hk = ground arith

-- A line `k` lines above the bottom line wraps to the one `k % total_lines` lines above it.
pub wrap_below :
    {d : Dimensions} (k : ℕ)
    → IsSized d
    → k < 2 ^ 31
    → Lines.grid_clamp (sub_ℕ d.screen_lines (suc k)) d unbounded
      ≡ sub_ℕ d.screen_lines (suc (k % d.total_lines))
unfolding Lines.grid_clamp
wrap_below {d} k s h =
    let m = d.screen_lines in
    let t : ltb_ℤ (sub_ℕ m (suc k)) (pos m) ≡ true = ground arith in
    rw
      (
        i32_of-eq_pos m (omega (arith, s)),
        i32_of-eq_pos d.total_lines s.total_fits,
        t,
        distance_below m k (omega (arith, s)) h,
        rem_below k d.total_lines (omega (arith, s)),
        bottommost_line_lem s,
      )
      (back_below m (k % d.total_lines) s.some_line (omega (arith, s)) (omega (arith, s)))

distance_above : (m k : ℕ) → m + k < 2 ^ 31 → pos (m + k) -ᵢ pos m ≡ pos k
unfolding ◌-ᵢ◌
distance_above m k h = ground arith

back_above : (m n k : ℕ) → m ≤ n → n < 2 ^ 31 → k < n → sub_ℕ m n +ᵢ pos k ≡ sub_ℕ (m + k) n
unfolding ◌+ᵢ◌
back_above m n k h hn hk = ground arith

-- A line `k` lines below the screen wraps to the one `k % total_lines` lines below the topmost.
pub wrap_above :
    {d : Dimensions} (k : ℕ)
    → IsSized d
    → d.screen_lines + k < 2 ^ 31
    → Lines.grid_clamp (pos (d.screen_lines + k)) d unbounded
      ≡ sub_ℕ (d.screen_lines + k % d.total_lines) d.total_lines
unfolding Lines.grid_clamp
wrap_above {d} k s h =
    let m = d.screen_lines in
    let t : ltb_ℤ (pos (m + k)) (pos m) ≡ false = ground arith in
    rw
      (
        i32_of-eq_pos m (omega (arith, s)),
        i32_of-eq_pos d.total_lines s.total_fits,
        t,
        distance_above m k h,
        rem_above k d.total_lines,
        topmost_line_lem s,
      )
      (back_above m d.total_lines (k % d.total_lines) s.screen_in s.total_fits (omega (arith, s)))

-- How far a line is from the screen.
above_bottom :
    (m : ℕ) (l : ℤ)
    → 0 < m
    → ltb_ℤ l (pos m) ≡ true
    → l ≡ sub_ℕ m (suc (m - 1 + neg_part l - pos_part l))
above_bottom m l p h = ground arith

under_bottom : (m : ℕ) (l : ℤ) → ltb_ℤ l (pos m) ≡ false → l ≡ pos (m + (pos_part l - m))
under_bottom m l h = ground arith

screen_bounds :
    (m n k : ℕ) → k < n → 0 < m → (sub_ℕ m n ≤ℤ sub_ℕ m (suc k)) × (sub_ℕ m (suc k) ≤ℤ pos (m - 1))
screen_bounds m n k h p = ground arith

history_bounds :
    (m n k : ℕ)
    → k < n
    → 0 < m
    → m ≤ n
    → (sub_ℕ m n ≤ℤ sub_ℕ (m + k) n) × (sub_ℕ (m + k) n ≤ℤ pos (m - 1))
history_bounds m n k h p i = ground arith

-- `Line::grid_clamp` with `Boundary::None` comes round to a line of the grid.
wrap_inside :
    {d : Dimensions} (l : ℤ)
    → IsSized d
    → FitsI32 l
    → FitsI32 (l -ℤ pos d.screen_lines)
    → (topmost_line d ≤ℤ Lines.grid_clamp l d unbounded)
      × (Lines.grid_clamp l d unbounded ≤ℤ bottommost_line d)
wrap_inside {d} l s g f =
    let m = d.screen_lines in
    let up = m - 1 + neg_part l - pos_part l in
    let down = pos_part l - m in
    rw (topmost_line_lem s, bottommost_line_lem s)
      (elim (Bool-cases (ltb_ℤ l (pos m))) [
        | inl b ↦
            rw
              (ap (λ x. Lines.grid_clamp x d unbounded) (above_bottom m l s.some_line b)
                ∙ wrap_below {d = d} up s (ground (arith, -ℤ_parts l (pos m), f)))
              (screen_bounds m d.total_lines (up % d.total_lines) (omega (arith, s)) s.some_line)
        | inr b ↦
            rw
              (ap (λ x. Lines.grid_clamp x d unbounded) (under_bottom m l b)
                ∙ wrap_above {d = d} down s (ground (arith, g)))
              (history_bounds m d.total_lines (down % d.total_lines) (omega (arith, s)) s.some_line
                s.screen_in)
      ])

-- Whether a line is one that `i32` arithmetic reaches the screen from without overflow.
abbrev pub NearGrid : Dimensions → ℤ → Type 0
NearGrid d l = FitsI32 l × FitsI32 (l -ℤ pos d.screen_lines)

-- A clamped point lies inside the boundary; without a boundary the line comes round to a line of
-- the grid.
pub grid_clamp-IsInside :
    {d : Dimensions} (b : Boundary) (p : Point)
    → IsSized d
    → NearGrid d p.line
    → IsInside d b (Points.grid_clamp p d b)
unfolding Points.grid_clamp
grid_clamp-IsInside {d} cursor p s n = ground (arith, bottommost_line_lem s, last_column_lem s)
grid_clamp-IsInside {d} grid p s n =
    ground (arith, topmost_line_lem s, bottommost_line_lem s, last_column_lem s)
grid_clamp-IsInside {d} unbounded p s n =
    let (lo, hi) = wrap_inside {d = d} p.line s n.0 n.1 in
    record { line_lo = lo; line_hi = hi; column_hi = omega arith }

-- A point inside a boundary stays where it is.
pub grid_clamp_inside :
    {d : Dimensions} (b : Boundary) (p : Point)
    → IsSized d
    → IsInside d b p
    → Points.grid_clamp p d b ≡ p
unfolding Points.grid_clamp
grid_clamp_inside cursor p s i = ground (arith, i)
grid_clamp_inside grid p s i = ground (arith, i)
grid_clamp_inside {d} unbounded p s i =
    let m = d.screen_lines in
    let up = m - 1 + neg_part p.line - pos_part p.line in
    let t : topmost_line d ≤ℤ p.line = i.line_lo in
    let b : p.line ≤ℤ bottommost_line d = i.line_hi in
    let t' : sub_ℕ m d.total_lines ≤ℤ p.line = rw (topmost_line_lem s) at t in
    let b' : p.line ≤ℤ pos (m - 1) = rw (bottommost_line_lem s) at b in
    let low : ltb_ℤ p.line (pos m) ≡ true = ground (arith, s) in
    let e = above_bottom m p.line s.some_line low in
    let n : up < d.total_lines = ground (arith, s) in
    let line : Lines.grid_clamp p.line d unbounded ≡ p.line =
      ap (λ x. Lines.grid_clamp x d unbounded) e
      ∙ wrap_below {d = d} up s (omega (arith, s, n))
      ∙ ap (λ k. sub_ℕ m (suc k)) (mod-eq_of_lt n)
      ∙ sym e in
    let column : min p.column (last_column d) ≡ p.column = omega (arith, i) in
    λ j. record { line = line j; column = column j }
