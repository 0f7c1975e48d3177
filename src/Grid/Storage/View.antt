-- ===== src/Grid/Storage/View.antt =====
-- The rows in use, from the bottom of the screen up: what a storage stands for.
use velacritty.Prelude.{
  ℕ, ◌<◌, ◌≡◌, sym, List, arith, length, get_elem?, set, swap, length-set, length-swap,
}
use velacritty.Prelude.Rings.{window, length-window, get_elem?-window, window-set, window-swap}
use velacritty.Grid.Row.{Row}
use velacritty.Grid.Storage.{Storage, index, index_mut, swap_lines}
use velacritty.Grid.Storage.Index.{IsValid, line_at, compute_index-line_at}

module _ {ℓ} {T : Type ℓ} where
  abbrev pub view : Storage T → List (Row T)
  view s = window s.zero s.len s.inner

  pub length-view : {s : Storage T} → IsValid s → length (view s) ≡ s.len
  length-view {s} v = length-window s.zero s.len s.inner v.len_in

  -- A line in use is read at its position in the view.
  pub index-line_at :
      (s : Storage T) (p : ℕ) → IsValid s → p < s.len → index s (line_at s p) ≡ get_elem? (view s) p
  unfolding index
  index-line_at s p v h =
      rw (compute_index-line_at s p v h)
        (sym (get_elem?-window s.zero s.len s.inner p v.zero_in v.len_in h))

  IsValid-inner :
      (s : Storage T) (rows : List (Row T))
      → length rows ≡ length s.inner
      → IsValid s
      → IsValid (record s { inner = rows })
  IsValid-inner s rows e v = omega (arith, v)

  -- A write to a line in use keeps the storage well formed, and changes its row in the view alone.
  pub index_mut-line_at :
      (s : Storage T) (p : ℕ) (row : Row T)
      → IsValid s
      → p < s.len
      → IsValid (index_mut s (line_at s p) row)
        × (view (index_mut s (line_at s p) row) ≡ set (view s) p row)
  unfolding index_mut
  index_mut-line_at s p row v h = rw (compute_index-line_at s p v h) (
    IsValid-inner s _ (length-set s.inner _ row) v,
    window-set s.zero s.len s.inner p row v.zero_in v.len_in h,
  )

  -- `swap` exchanges two lines in use, in the view too, and keeps the storage well formed.
  pub swap_lines-line_at :
      (s : Storage T) (p q : ℕ)
      → IsValid s
      → p < s.len
      → q < s.len
      → IsValid (swap_lines s (line_at s p) (line_at s q))
        × (view (swap_lines s (line_at s p) (line_at s q)) ≡ swap (view s) p q)
  unfolding swap_lines
  swap_lines-line_at s p q v hp hq =
      rw (compute_index-line_at s p v hp, compute_index-line_at s q v hq)
        (
          IsValid-inner s _ (length-swap s.inner _ _) v,
          window-swap s.zero s.len s.inner p q v.zero_in v.len_in hp hq,
        )
