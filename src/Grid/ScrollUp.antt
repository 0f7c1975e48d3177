-- ===== src/Grid/ScrollUp.antt =====
-- `Grid::scroll_up` of a region that begins at the top line of the screen: the region's lines move
-- up, those at its top into the history, and the lines below the region stay.
use mathlib.Core.List.{map, reverse}
use velacritty.Prelude.{
  ℕ, ◌+◌, ◌-◌, ◌^◌, ◌≤◌, ◌<◌, ◌≡◌, refl, ap, ◌∙◌, inl, inr, not, ◌||◌, ◌++◌, arith, length, min,
  max, ◌==◌, Bool-cases, take, take-take, take_congr,
}
use velacritty.Prelude.Rings.{window, length-window}
use velacritty.Prelude.Int.{ℤ, pos, ◌-ℤ◌}
use velacritty.Prelude.Word.{i32_of, i32_of-eq_pos, usize_sub, ◌-ᵢ◌}
use velacritty.Grid.Cell.{GridCell}
use velacritty.Grid.Storage
use velacritty.Grid.Storage.{max_cache_size}
use velacritty.Grid.Storage.View.{view, length-view}
use velacritty.Grid.Storage.Lines.{initialize_lem, rotate_up}
use velacritty.Grid.Ranges.{lines_between, leb_ℤ}
use velacritty.Grid.SwapLoop.{exchange_up-MovedDown}
use velacritty.Grid.Loops.{
  line, upwards, downwards, HasShape, swap_lines_up, bottom_lines, lines_above,
}
use velacritty.Grid.ResetLoop.{reset_lines-IsReset}
use velacritty.Grid.MovesUp.{MovesUp, compose_moves}
use velacritty.Grid.Wellformed.{IsGrid}
use velacritty.Grid.{
  Grid, history_size, increase_scroll_limit, move_up, follow, scroll_up, reset_lines, swap_lines,
}

-- The lines of a loop over the bottom of the screen, and over the end of the region.
below_region :
    (v e : ℕ)
    → e ≤ v
    → v < 2 ^ 31
    → reverse (lines_between (pos e) (i32_of v)) ≡ map (line v) (upwards 0 (v - e))
below_region v e h hv =
    let c : v + 0 - (e + 0) ≡ v - e = omega arith in
    rw (i32_of-eq_pos v hv, c) (bottom_lines v e (v - e) (omega arith))

region_end :
    (v e k : ℕ)
    → k ≤ e
    → e ≤ v
    → v < 2 ^ 31
    → lines_between (pos e -ᵢ i32_of k) (pos e) ≡ map (line v) (downwards (v - e) k)
region_end v e k h he hv =
    let a : pos e -ᵢ i32_of k ≡ pos (e - k) = unfold ◌-ᵢ◌ i32_of in ground arith in
    let c : e + 0 - (e - k + 0) ≡ k = omega arith in
    rw (a, c) (lines_above v e k (v - e) h (omega arith))

module _ {ℓ} {T : Type ℓ} where
  swap_none :
      (f : ℤ → ℤ) (s : Storage.Storage T)
      → swap_lines f (reverse (lines_between (pos 0) (pos 0))) s ≡ s
  unfolding swap_lines
  swap_none f s = refl

module _ {ℓ} {T C : Type ℓ} ⦃g : GridCell T⦄ where
  -- How many lines the history takes of `k` that leave the screen.
  abbrev pub taken : Grid T C → ℕ → ℕ
  taken self k = min k (self.max_scroll_limit - history_size self)

  -- The history grows by the lines that it takes, above all that is there.
  increase_lem :
      {cap : ℕ} (self : Grid T C) (k : ℕ)
      → IsGrid cap self
      → let self' = increase_scroll_limit self k in
        HasShape self.lines (self.raw.len + taken self k) self'.raw
        × (take self.raw.len (view self'.raw) ≡ view self.raw)
        × (length self'.raw.inner ≤ cap + max cap max_cache_size)
  unfolding increase_scroll_limit
  increase_lem {cap} self k w =
      let e : usize_sub self.max_scroll_limit (history_size self)
          ≡ self.max_scroll_limit - history_size self =
        omega (arith, w) in
      let n = taken self k in
      let i = initialize_lem self.raw n self.columns w.valid (omega (arith, w)) in
      rw e (elim (Bool-cases (n == 0)) [
        | inl z ↦ rw z (
          record { valid = w.valid; visible = w.screen; used = ground (arith, z) },
          take-take self.raw.len self.raw.len _ (omega arith),
          w.buffer,
        )
        | inr nz ↦ rw nz (
          record { valid = i.0; visible = i.2 ∙ w.screen; used = i.1 },
          i.3,
          omega (arith, i.4, w),
        )
      ])

  -- Only the viewport follows.
  raw-increase-follow :
      (self : Grid T C) (k : ℕ)
      → (increase_scroll_limit (follow self k) k).raw ≡ (increase_scroll_limit self k).raw
  unfolding increase_scroll_limit follow
  raw-increase-follow self k =
      elim (Bool-cases (not (self.display_offset == 0) || not self.auto_scroll_enabled)) [
        | inl c ↦
            rw c
              (elim (Bool-cases
                (min k (usize_sub self.max_scroll_limit (history_size self)) == 0)) [
                  | inl z ↦ rw z
                  | inr z ↦ rw z
                ])
        | inr c ↦ rw c
      ]

  lines-follow : (self : Grid T C) (k : ℕ) → (follow self k).lines ≡ self.lines
  unfolding follow
  lines-follow self k =
      elim (Bool-cases (not (self.display_offset == 0) || not self.auto_scroll_enabled)) [
        | inl c ↦ rw c
        | inr c ↦ rw c
      ]

  move_up-raw :
      (self : Grid T C) (e k : ℕ)
      → (move_up self (record { start = pos 0; end = pos e }) k).raw
        ≡ swap_lines
            (λ i. i -ᵢ i32_of k)
            (reverse (lines_between (pos e) (i32_of self.lines)))
            (Storage.rotate (increase_scroll_limit self k).raw (pos 0 -ℤ pos k))
  unfolding move_up
  move_up-raw self e k = rw swap_none

  -- The loops of `scroll_up`, over positions.
  scroll_up-raw :
      (self : Grid T C) (e k : ℕ)
      → k ≤ e
      → e ≤ self.lines
      → self.lines < 2 ^ 31
      → (scroll_up self (record { start = pos 0; end = pos e }) k).raw
        ≡ reset_lines self.cursor.template (map (line self.lines) (downwards (self.lines - e) k)) (
            swap_lines
              (λ i. i -ᵢ i32_of k)
              (map (line self.lines) (upwards 0 (self.lines - e)))
              (Storage.rotate (increase_scroll_limit self k).raw (pos 0 -ℤ pos k)))
  unfolding scroll_up
  scroll_up-raw self e k hk he hv =
      let moves = move_up-raw (follow self k) e k in
      let same = raw-increase-follow self k in
      let l = lines-follow self k in
      let last = region_end self.lines e k hk he hv in
      let below = below_region self.lines e he hv in
      elim (Bool-cases (leb_ℤ (pos e -ᵢ pos 0) (i32_of k))) [
        | inl b ↦ rw (b, moves, same, l, last, below)
        | inr b ↦ rw (b, moves, same, l, last, below)
      ]

  -- A region that begins at the top of the screen and ends at line `e` scrolls up by `k`: the
  -- lines below it stay, its last `k` lines are reset, and all lines above those, with the history,
  -- are as before, `k` lines further up. The history takes the lines that leave the screen, or as
  -- many as it has room for.
  pub scroll_up-MovesUp :
      {cap : ℕ} (self : Grid T C) (e k : ℕ)
      → IsGrid cap self
      → e ≤ self.lines
      → k ≤ e
      → let self' = scroll_up self (record { start = pos 0; end = pos e }) k in
        HasShape self.lines (self.raw.len + taken self k) self'.raw
        × MovesUp
            (self.lines - e)
            k
            (taken self k)
            self.cursor.template
            (view self.raw)
            (view self'.raw)
  scroll_up-MovesUp {cap} self e k w he hk =
      let v = self.lines in
      let f = v - e in
      let n = taken self k in
      let s1 = (increase_scroll_limit self k).raw in
      let (h1, pre, _) = increase_lem {cap = cap} self k w in
      let la = length-view w.valid in
      let lb = length-view h1.valid in
      let s2 = Storage.rotate s1 (pos 0 -ℤ pos k) in
      let up = rotate_up s1 k h1.valid (omega (arith, h1, w)) in
      let h2 : HasShape v (self.raw.len + n) s2 =
        unfold Storage.rotate in record { valid = up.0; visible = h1.visible; used = h1.used } in
      let (h3, x) = swap_lines_up {v = v} {n = self.raw.len + n} 0 f k s2 h2 (omega (arith, w)) in
      let s3 = swap_lines (λ i. i -ᵢ i32_of k) (map (line v) (upwards 0 f)) s2 in
      let (h4, r) =
        reset_lines-IsReset {v = v} {n = self.raw.len + n} self.cursor.template f k s3 h3
          (omega (arith, w)) in
      rw (scroll_up-raw self e k hk he (omega (arith, w))) (
        h4,
        compose_moves f k n self.cursor.template (view self.raw) (view s1) (view s2) (view s3)
            (view (reset_lines self.cursor.template (map (line v) (downwards f k)) s3))
            (window s2.zero k s2.inner) (omega (arith, la, lb, h1)) (take_congr (view s1) la ∙ pre)
            (length-window s2.zero k s2.inner (omega (arith, h2, w))) (omega arith)
            (omega (arith, lb, h1, w))
            (up.1
              ∙ ap (λ r. window s2.zero k s2.inner ++ r) (take_congr (view s1) (omega (arith, lb))))
            (rw x
              (exchange_up-MovedDown 0 f k (view s2) (omega (arith, length-view h2.valid, h2, w))))
            r (omega (arith, la, w)),
      )
