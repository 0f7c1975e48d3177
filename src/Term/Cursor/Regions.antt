-- ===== src/Term/Cursor/Regions.antt =====
-- A new scroll region is inside the screen, and the cursor on it.
use velacritty.Prelude.{
  ℕ, ◌<◌, ◌^◌, arith, ltb, ltb→lt, Bool-cases, inl, inr, if◌then◌else◌, Option, none, some,
}
use velacritty.Prelude.Int.{pos, ◌≤ℤ◌, ◌-ℤ◌}
use velacritty.Prelude.Word.{i32_of, i32_of-eq_pos, ◌-ᵢ◌, i32_wrap}
use velacritty.Index.{min_ℤ}
use velacritty.Term.External.{External}
use velacritty.Term.State.{Term}
use velacritty.Term.Cursor
use velacritty.Term.Cursor.Inside.{OnScreen, with_region, goto-OnScreen}

region_lem :
    (top bottom n : ℕ)
    → 0 < top
    → top < bottom
    → bottom < 2 ^ 31
    → n < 2 ^ 31
    → (pos 0 ≤ℤ min_ℤ (i32_of top -ᵢ pos 1) (i32_of n))
      × (min_ℤ (i32_of top -ᵢ pos 1) (i32_of n) ≤ℤ min_ℤ (i32_of bottom) (i32_of n))
      × (min_ℤ (i32_of bottom) (i32_of n) ≤ℤ pos n)
unfolding ◌-ᵢ◌ ◌-ℤ◌ i32_wrap
region_lem top bottom n o t h k =
    rw (i32_of-eq_pos top (omega arith), i32_of-eq_pos bottom h, i32_of-eq_pos n k) (ground arith)

-- The bottom of a scroll region, if it is given, is a number that an `i32` has.
abbrev pub IsBottom : Option ℕ → Type 0
IsBottom none = Unit {0}
IsBottom (some bottom) = bottom < 2 ^ 31

module _ {x : External} where
  region-OnScreen :
      (self : Term x) (top bottom : ℕ)
      → 0 < top
      → top < bottom
      → bottom < 2 ^ 31
      → OnScreen self
      → OnScreen (record self {
        scroll_region = record {
          start = min_ℤ (i32_of top -ᵢ pos 1) (i32_of self.grid.lines);
          end = min_ℤ (i32_of bottom) (i32_of self.grid.lines);
        };
      })
  region-OnScreen self top bottom o t h w =
      let (start, order, end) = region_lem top bottom self.grid.lines o t h w.lines_fit in
      with_region w start order end

  goto_region-OnScreen :
      (self : Term x) (top bottom : ℕ)
      → 0 < top
      → bottom < 2 ^ 31
      → OnScreen self
      → OnScreen (
          if ltb top bottom
          then Cursor.goto
              (record self {
                scroll_region = record {
                  start = min_ℤ (i32_of top -ᵢ pos 1) (i32_of self.grid.lines);
                  end = min_ℤ (i32_of bottom) (i32_of self.grid.lines);
                };
              })
              (pos 0)
              0
          else self)
  goto_region-OnScreen self top bottom o h w = elim (Bool-cases (ltb top bottom)) [
    | inl e ↦
        rw e
          (goto-OnScreen _ (pos 0) 0 (region-OnScreen self top bottom o (ltb→lt top bottom e) h w))
    | inr e ↦ rw e w
  ]

  -- The lines of a region count from 1.
  pub set_scrolling_region-OnScreen :
      (self : Term x) (top : ℕ) (bottom : Option ℕ)
      → 0 < top
      → IsBottom bottom
      → OnScreen self
      → OnScreen (Cursor.set_scrolling_region self top bottom)
  unfolding Cursor.set_scrolling_region
  set_scrolling_region-OnScreen self top none o h w =
      goto_region-OnScreen self top self.grid.lines o w.lines_fit w
  set_scrolling_region-OnScreen self top (some bottom) o h w =
      goto_region-OnScreen self top bottom o h w
