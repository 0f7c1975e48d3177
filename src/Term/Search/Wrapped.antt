-- ===== src/Term/Search/Wrapped.antt =====
-- `line_search_left` finds the first of the lines that wrap into one another.
use velacritty.Prelude.{
  ℕ, zero, suc, ◌+◌, ◌-◌, ◌≤◌, ◌<◌, ◌^◌, ◌≡◌, ◌⊎◌, inl, inr, Bool, true, false, ◌&&◌, refl, ap, ◌∙◌,
  arith, Bool-cases,
}
use velacritty.Prelude.Int.{ℤ, pos, negsuc, pos_part, neg_part, ltb_ℤ, ◌≤ℤ◌, ◌-ℤ◌, eq_of_parts}
use velacritty.Prelude.Word.{i32_of, i32_wrap, usize_of, ◌-ᵢ◌}
use velacritty.Index.{Point, IsSized, last_column, topmost_line, history_size}
use velacritty.Term.External.{External}
use velacritty.Term.Search.{is_wrap, line_search_left, wrapped_above}
use velacritty.Term.State.{Term, size}

-- `l < r`, on integers.
infix 50 ◌<ℤ◌
abbrev pub ◌<ℤ◌ : ℤ → ℤ → Type 0
l <ℤ r = pos_part l + neg_part r < pos_part r + neg_part l

-- A line that an `i32` and the line before it have.
record IsLine (top z : ℤ) : Type 0 where
  below_top : top ≤ℤ z
  top_fits : neg_part top < 2 ^ 31
  line_fits : pos_part z < 2 ^ 31

pred_lem :
    (top z : ℤ)
    → IsLine top z
    → (pos_part (z -ᵢ pos 1) + neg_part z + 1 ≡ pos_part z + neg_part (z -ᵢ pos 1))
      × (pos_part (z -ᵢ pos 1) ≤ pos_part z)
unfolding ◌-ᵢ◌ ◌-ℤ◌ i32_wrap
pred_lem top (pos zero) w = ground (arith, w)
pred_lem top (pos (suc a)) w = ground (arith, w)
pred_lem top (negsuc a) w = ground (arith, w)

next_or_more :
    (a z l : ℤ)
    → pos_part a + neg_part z + 1 ≡ pos_part z + neg_part a
    → a ≤ℤ l
    → (pos_part l + neg_part a ≡ pos_part a + neg_part l) ⊎ (z ≤ℤ l)
next_or_more a z l e h = omega (arith, e, h)

top_lem :
    (n : ℕ) → n < 2 ^ 31 → (pos_part (pos 0 -ᵢ i32_of n) ≡ 0) × (neg_part (pos 0 -ᵢ i32_of n) ≡ n)
unfolding ◌-ᵢ◌ ◌-ℤ◌ i32_wrap i32_of
top_lem n h = ground arith

rounds_lem :
    (top z : ℤ)
    → pos_part top ≡ 0
    → pos_part z + neg_part top < 2 ^ 31
    → top ≤ℤ z
    → pos_part z + neg_part top ≤ usize_of (z -ᵢ top) + neg_part z + pos_part top
unfolding usize_of ◌-ᵢ◌ ◌-ℤ◌ i32_wrap
rounds_lem (pos a) (pos b) e h k = ground (arith, e, h, k)
rounds_lem (pos a) (negsuc b) e h k = absurd (omega (arith, e, k))
rounds_lem (negsuc a) (pos b) e h k = ground (arith, e, h, k)
rounds_lem (negsuc a) (negsuc b) e h k = ground (arith, e, h, k)

lt_of : (a b : ℤ) → ltb_ℤ a b ≡ true → a <ℤ b
lt_of a b e = ground arith

and_left : (a b : Bool) → a && b ≡ true → a ≡ true
and_left true b e = refl
and_left false b e = e

and_right : (a b : Bool) → a && b ≡ true → b ≡ true
and_right true b e = e
and_right false b e = cc

module _ {x : External} where
  -- Whether a line wraps into the next one.
  abbrev pub wraps_on : Term x → ℤ → Bool
  wraps_on self line = is_wrap self (record { line = line; column = last_column (size self) })

  abbrev pub goes_up : Term x → ℤ → Bool
  goes_up self line = ltb_ℤ (topmost_line (size self)) line && wraps_on self (line -ᵢ pos 1)

  wrapped_above_lem :
      (self : Term x) (z l : ℤ) (n : ℕ)
      → IsLine (topmost_line (size self)) z
      → pos_part z + neg_part (topmost_line (size self))
        ≤ n + neg_part z + pos_part (topmost_line (size self))
      → (topmost_line (size self) ≤ℤ wrapped_above self z n)
        × (wrapped_above self z n ≤ℤ z)
        × (goes_up self (wrapped_above self z n) ≡ false)
        × ((wraps_on self l ≡ true) ⊎ ((l <ℤ wrapped_above self z n) ⊎ (z ≤ℤ l)))
  unfolding wrapped_above
  wrapped_above_lem self z l zero w h =
      let stays : ltb_ℤ (topmost_line (size self)) z ≡ false = ground (arith, w, h) in
      (w.below_top, omega arith, rw stays refl, inr (omega arith))
  wrapped_above_lem self z l (suc n) w h = elim (Bool-cases (goes_up self z)) [
    | inr e ↦ rw (wrapped_above, e) (w.below_top, omega arith, e, inr (omega arith))
    | inl e ↦
        let p = pred_lem (topmost_line (size self)) z w in
        let m = lt_of (topmost_line (size self)) z (and_left _ _ e) in
        let v : IsLine (topmost_line (size self)) (z -ᵢ pos 1) = record {
          below_top = omega (arith, p, m);
          top_fits = w.top_fits;
          line_fits = omega (arith, p, w.line_fits);
        } in
        let (lo, hi, stop, all) = wrapped_above_lem self (z -ᵢ pos 1) l n v (omega (arith, p, h)) in
        rw (wrapped_above, e)
          (
            lo,
            omega (arith, hi, p),
            stop,
            elim all [
              | inl a ↦ inl a
              | inr (inl b) ↦ inr (inl b)
              | inr (inr c) ↦ elim (next_or_more (z -ᵢ pos 1) z l p.0 c) [
                | inl same ↦
                    inl (ap (wraps_on self) (eq_of_parts l (z -ᵢ pos 1) same) ∙ and_right _ _ e)
                | inr more ↦ inr (inr more)
              ]
            ],
          )
  ]

  -- `line_search_left` goes to the first column of the line that starts a wrapped line: a line of the
  -- grid, at or above the point's, that is the topmost one or whose line above does not wrap; and
  -- every line `l` from there on and above the point's wraps into the next. The grid has a size that
  -- terminals have, and the point is not above its topmost line and not below its screen.
  pub line_search_left_lem :
      (self : Term x) (point : Point) (l : ℤ)
      → IsSized (size self)
      → topmost_line (size self) ≤ℤ point.line
      → pos_part point.line < self.grid.lines
      → ((line_search_left self point).column ≡ 0)
        × (topmost_line (size self) ≤ℤ (line_search_left self point).line)
        × ((line_search_left self point).line ≤ℤ point.line)
        × (goes_up self (line_search_left self point).line ≡ false)
        × ((wraps_on self l ≡ true)
            ⊎ ((l <ℤ (line_search_left self point).line) ⊎ (point.line ≤ℤ l)))
  unfolding line_search_left topmost_line history_size
  line_search_left_lem self point l s h k =
      let top = topmost_line (size self) in
      let (none_above, history) =
        top_lem (self.grid.raw.len - self.grid.lines) (omega (arith, s)) in
      let (lo, hi, stop, all) =
        wrapped_above_lem self point.line l (usize_of (point.line -ᵢ top))
          (record {
            below_top = h;
            top_fits = omega (arith, history, s);
            line_fits = omega (arith, k, s);
          })
          (rounds_lem top point.line none_above (omega (arith, history, s, k)) h) in
      (refl, lo, hi, stop, all)
