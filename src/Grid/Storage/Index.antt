-- ===== src/Grid/Storage/Index.antt =====
-- Well-formed storages, and where `compute_index` finds a line. A position counts rows from the
-- bottom line of the screen upwards, through the history.
use velacritty.Prelude.{ℕ, suc, ◌^◌, ◌≤◌, ◌<◌, ◌≡◌, arith, length}
use velacritty.Prelude.Rings.{slot}
use velacritty.Prelude.Int.{ℤ, pos, sub_ℕ}
use velacritty.Prelude.Word.{i32_of, usize_of, usize_sub, ◌-ᵢ◌}
use velacritty.Grid.Storage.{Storage, compute_index}

module _ {ℓ} {T : Type ℓ} where
  -- The rows that are in use are stored, and the screen is part of them. The number of stored rows
  -- fits an `i32`, so that every line has a number.
  pub record IsValid (s : Storage T) : Type ℓ where
    pub zero_in : s.zero < length s.inner
    pub len_in : s.len ≤ length s.inner
    pub visible_in : s.visible_lines ≤ s.len
    pub some_line : 0 < s.visible_lines
    pub fits : length s.inner < 2 ^ 31

  -- The line at a position: the bottom line of the screen is at position 0.
  abbrev pub line_at : Storage T → ℕ → ℤ
  line_at s p = sub_ℕ s.visible_lines (suc p)

-- The position that `compute_index` works out from a line.
pub position_of_line :
    (v p : ℕ)
    → v < 2 ^ 31
    → suc p < 2 ^ 31
    → usize_sub (usize_of (pos 0 -ᵢ (sub_ℕ v (suc p) -ᵢ i32_of v))) 1 ≡ p
unfolding usize_of ◌-ᵢ◌ i32_of
position_of_line v p hv hp = ground arith

module _ {ℓ} {T : Type ℓ} where
  pub compute_index-line_at :
      (s : Storage T) (p : ℕ)
      → IsValid s
      → p < s.len
      → compute_index s (line_at s p) ≡ slot s.zero (length s.inner) p
  unfolding compute_index
  compute_index-line_at s p v h =
      ground (arith, position_of_line s.visible_lines p, v.zero_in, v.len_in, v.visible_in, v.fits)

  -- Every line in use is found inside the buffer.
  pub compute_index-lt :
      (s : Storage T) (p : ℕ)
      → IsValid s
      → p < s.len
      → compute_index s (line_at s p) < length s.inner
  compute_index-lt s p v h =
      rw (compute_index-line_at s p v h) (ground (arith, v.zero_in, v.len_in))
