-- ===== src/Grid/Viewport.antt =====
-- The viewport's place in the history, `display_offset`, under the operations that move it.
use velacritty.Prelude.{
  ℕ, ◌+◌, ◌≤◌, ◌<◌, ◌≡◌, inl, inr, false, arith, List, [], ◌∷◌, refl, ◌∙◌, ◌^◌, Option-cases, min,
  ◌==◌, Bool-cases, ◌⊎◌,
}
use velacritty.Prelude.Int.{ℤ, pos, negsuc, ◌+ℤ◌, ◌-ℤ◌}
use velacritty.Prelude.Word.{
  i32_of, usize_of, usize_add, FitsI32, i32_of-eq_pos, i32_wrap_fits, ◌-ᵢ◌, ◌+ᵢ◌,
}
use velacritty.Index.{min_ℤ, max_ℤ}
use velacritty.Grid.Cell.{GridCell}
use velacritty.Grid.Storage
use velacritty.Grid.Ranges.{leb_ℤ, eq_ℤ, lines_between}
use velacritty.Grid.Wellformed.{IsGrid}
use velacritty.Grid.{
  Grid, Scroll, Region, delta, page_up, page_down, top, bottom, history_size, scroll_display,
  scroll_up, follow, move_up, swap_lines, reset_line, reset_lines,
}

to_history :
    (z : ℤ) (n : ℕ)
    → FitsI32 z
    → pos (min (usize_of (max_ℤ z (pos 0))) n) ≡ max_ℤ (min_ℤ z (pos n)) (pos 0)
unfolding usize_of
to_history (pos a) n h = ground arith
to_history (negsuc a) n h = ground arith

module _ {ℓ} {T C : Type ℓ} where
  -- The line of the history that a scroll aims at, as an integer.
  abbrev pub aim : Grid T C → Scroll → ℤ
  aim self (delta count) = pos self.display_offset +ℤ count
  aim self page_up = pos (self.display_offset + self.lines)
  aim self page_down = pos self.display_offset -ℤ pos self.lines
  aim self top = pos (history_size self)
  aim self bottom = pos 0

  abbrev pub IsScroll : Grid T C → Scroll → Type 0
  IsScroll self (delta count) = FitsI32 (pos self.display_offset +ℤ count)
  IsScroll self _ = Unit {0}

  aim-delta :
      (self : Grid T C) (count : ℤ)
      → self.display_offset < 2 ^ 31
      → FitsI32 (pos self.display_offset +ℤ count)
      → i32_of self.display_offset +ᵢ count ≡ pos self.display_offset +ℤ count
  unfolding ◌+ᵢ◌
  aim-delta self count h w = rw (i32_of-eq_pos self.display_offset h) (i32_wrap_fits _ w)

  -- Each scroll of a viewport inside the history moves it by what the scroll says, as integers, and
  -- then to the nearest place inside the history, the offsets from 0 to its size. The offset and the
  -- number of lines are below 2 ^ 31, and so is what a scroll by lines comes to.
  pub scroll_display_lem :
      (self : Grid T C) (scroll : Scroll)
      → self.display_offset ≤ history_size self
      → self.display_offset < 2 ^ 31
      → self.lines < 2 ^ 31
      → IsScroll self scroll
      → pos (scroll_display self scroll).display_offset
        ≡ max_ℤ (min_ℤ (aim self scroll) (pos (history_size self))) (pos 0)
  unfolding scroll_display ◌-ℤ◌
  scroll_display_lem self (delta count) h k m w =
      rw (aim-delta self count k w)
        (to_history (pos self.display_offset +ℤ count) (history_size self) w)
  scroll_display_lem self page_up h k m w = ground arith
  scroll_display_lem self page_down h k m w = ground arith
  scroll_display_lem self top h k m w = ground arith
  scroll_display_lem self bottom h k m w = ground arith

module _ {ℓ} {T : Type ℓ} where
  len-swap_lines : (f : ℤ → ℤ) (l : List ℤ) (s : Storage.Storage T) → (swap_lines f l s).len ≡ s.len
  unfolding swap_lines Storage.swap_lines
  len-swap_lines f [] s = refl
  len-swap_lines f (i ∷ l) s = len-swap_lines f l (Storage.swap_lines s i (f i))

module _ {ℓ} {T : Type ℓ} ⦃g : GridCell T⦄ where
  len-reset_line : (t : T) (s : Storage.Storage T) (i : ℤ) → (reset_line t s i).len ≡ s.len
  unfolding reset_line Storage.index_mut
  len-reset_line t s i = elim (Option-cases (Storage.index s i)) [
    | inl e ↦ rw (e, reset_line)
    | inr (row, e) ↦ rw (e, reset_line)
  ]

  len-reset_lines : (t : T) (l : List ℤ) (s : Storage.Storage T) → (reset_lines t l s).len ≡ s.len
  unfolding reset_lines
  len-reset_lines t [] s = refl
  len-reset_lines t (i ∷ l) s = len-reset_lines t l (reset_line t s i) ∙ len-reset_line t s i

module _ {ℓ} {T C : Type ℓ} ⦃g : GridCell T⦄ where
  follow_manual :
      (self : Grid T C) (k : ℕ)
      → (self.auto_scroll_enabled ≡ false) ⊎ (0 < self.display_offset)
      → ((follow self k).display_offset
          ≡ min (usize_add self.display_offset k) self.max_scroll_limit)
        × ((follow self k).raw.len ≡ self.raw.len)
        × ((follow self k).lines ≡ self.lines)
  unfolding follow
  follow_manual self k (inl a) = elim (Bool-cases (self.display_offset == 0)) [
    | inl z ↦ rw (z, a) (refl, refl, refl)
    | inr z ↦ rw z (refl, refl, refl)
  ]
  follow_manual self k (inr a) =
      let z : (self.display_offset == 0) ≡ false = ground arith in rw z (refl, refl, refl)

  move_up_below :
      (self : Grid T C) (start end : ℤ) (k : ℕ)
      → eq_ℤ start (pos 0) ≡ false
      → let self' = move_up self (record { start = start; end = end }) k in
        (self'.display_offset ≡ self.display_offset)
        × (self'.raw.len ≡ self.raw.len)
        × (self'.lines ≡ self.lines)
  unfolding move_up
  move_up_below self start end k s = rw s (
    refl,
    len-swap_lines (λ i. i +ᵢ i32_of k) (lines_between start (end -ᵢ i32_of k)) self.raw,
    refl,
  )

  -- A scroll of a region that does not begin at the top line, by one line at least and fewer lines
  -- than it has, in a well formed grid whose viewport is at the top of a history that is not full,
  -- with the automatic scrolling off or the viewport off the bottom: the history gets no line, and
  -- the viewport moves up all the same, by as many lines as are scrolled or to the limit of the
  -- history, which is past the end of the history and shows lines that are not in use. The offset and
  -- the lines scrolled are below 2 ^ 64 together.
  pub scroll_up-past_history :
      {cap : ℕ} (self : Grid T C) (start end : ℤ) (k : ℕ)
      → IsGrid cap self
      → eq_ℤ start (pos 0) ≡ false
      → leb_ℤ (end -ᵢ start) (i32_of k) ≡ false
      → (self.auto_scroll_enabled ≡ false) ⊎ (0 < self.display_offset)
      → self.display_offset ≡ history_size self
      → history_size self < self.max_scroll_limit
      → 0 < k
      → self.display_offset + k < 2 ^ 64
      → let self' = scroll_up self (record { start = start; end = end }) k in
        (history_size self' ≡ history_size self)
        × (self'.display_offset ≡ min (history_size self + k) self.max_scroll_limit)
        × (history_size self' < self'.display_offset)
        × (self'.raw.len < self'.display_offset + self'.lines)
  scroll_up-past_history self start end k w s h a o m p f =
      let r : Region = record { start = start; end = end } in
      let moved = move_up (follow self k) r k in
      let fo = follow_manual self k a in
      let (mo, raw, lines) = move_up_below (follow self k) start end k s in
      let l : (reset_lines self.cursor.template (lines_between (end -ᵢ i32_of k) end) moved.raw).len
          ≡ self.raw.len =
        len-reset_lines self.cursor.template (lines_between (end -ᵢ i32_of k) end) moved.raw
        ∙ raw
        ∙ fo.1 in
      let d = w.display in
      unfold scroll_up in
      rw (h, l, lines, mo, fo.0, fo.2)
        (omega arith, omega (arith, o, f), omega (arith, o, m, p, f), omega (arith, o, m, p, f, d))
