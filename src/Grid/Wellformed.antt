-- ===== src/Grid/Wellformed.antt =====
-- Well-formed grids.
use velacritty.Prelude.{ℕ, ◌+◌, ◌^◌, ◌≤◌, ◌<◌, ◌≡◌, refl, max, length}
use velacritty.Grid.Storage.{max_cache_size}
use velacritty.Grid.Storage.Index.{IsValid}
use velacritty.Grid.Loops.{HasShape}
use velacritty.Grid.{Grid}

-- `cap` bounds the number of lines, with the history, and so the size of the buffer: it grows by
-- the larger of the lines that are wanted and the cache, and only if it is full.
pub record IsGrid {ℓ} {T C : Type ℓ} (cap : ℕ) (self : Grid T C) : Type ℓ where
  pub valid : IsValid self.raw
  pub screen : self.raw.visible_lines ≡ self.lines
  pub history : self.raw.len ≤ self.lines + self.max_scroll_limit
  pub limit : self.lines + self.max_scroll_limit ≤ cap
  pub buffer : length self.raw.inner ≤ cap + max cap max_cache_size
  pub fits : cap + max cap max_cache_size + max cap max_cache_size < 2 ^ 31
  pub some_column : 0 < self.columns
  pub display : self.display_offset + self.lines ≤ self.raw.len

pub shape {ℓ} :
    {T C : Type ℓ} {cap : ℕ} {self : Grid T C}
    → IsGrid cap self
    → HasShape self.lines self.raw.len self.raw
shape w = record { valid = w.valid; visible = w.screen; used = refl }
