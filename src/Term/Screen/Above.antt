-- ===== src/Term/Screen/Above.antt =====
-- The lines above the cursor under `clear_screen`.
use velacritty.Prelude.{
  ℕ, suc, ◌-◌, ◌≤◌, ◌<◌, ◌≡◌, ◌≢◌, refl, ap, sym, ◌∙◌, arith, Option, get_elem?, get_elem?-set_ne,
  none, some, min, if◌then◌else◌,
}
use velacritty.Prelude.Int.{ℤ, pos, sub_ℕ, ltb_ℤ}
use velacritty.Prelude.Word.{usize_add}
use velacritty.Index.Ranges.{unbounded, excluded}
use velacritty.Grid.Row.Slices.{fill_to}
use velacritty.Grid.Row.{Row}
use velacritty.Grid.Storage
use velacritty.Grid.Storage.{Storage}
use velacritty.Grid.Storage.Index.{IsValid, line_at}
use velacritty.Grid.Storage.View.{view, index-line_at, index_mut-line_at}
use velacritty.Term.Cell.{Cell, cell}
use velacritty.Term.External.{External}
use velacritty.Term.Edit.{update_row, blank}
use velacritty.Term.Screen.{clear_screen, clear_above, above, reset_region}
use velacritty.Term.State.{Term, cursor_point, mark_fully_damaged}

line_one : (n : ℕ) → 2 ≤ n → sub_ℕ n (suc (n - 2)) ≡ pos 1
line_one n h = ground arith

line_zero : (n : ℕ) → 2 ≤ n → sub_ℕ n (suc (n - 1)) ≡ pos 0
line_zero n h = ground arith

ap2_lines : {A : Type 0} (f : ℤ → ℤ → A) {a b c d : ℤ} → a ≡ b → c ≡ d → f b d ≡ f a c
ap2_lines f {b = b} {c = c} p q = ap (λ z. f b z) (sym q) ∙ ap (λ z. f z c) (sym p)

module _ {ℓ} {T : Type ℓ} where
  -- The write of a row leaves the other lines.
  pub index-index_mut_ne :
      (s : Storage T) (p q : ℕ) (row : Row T)
      → IsValid s
      → p < s.len
      → q < s.len
      → q ≢ p
      → Storage.index (Storage.index_mut s (line_at s p) row) (line_at s q)
        ≡ Storage.index s (line_at s q)
  unfolding Storage.index_mut
  index-index_mut_ne s p q row v hp hq n =
      let (w, e) = index_mut-line_at s p row v hp in
      index-line_at (Storage.index_mut s (line_at s p) row) q w hq
      ∙ ap (λ rows. get_elem? rows q) e
      ∙ get_elem?-set_ne (view s) row (λ k. n (sym k))
      ∙ sym (index-line_at s q v hq)

module _ {x : External} where
  update_row-other :
      (self : Term x) (p q : ℕ) (f : Row (Cell x) → Row (Cell x))
      → IsValid self.grid.raw
      → p < self.grid.raw.len
      → q < self.grid.raw.len
      → q ≢ p
      → Storage.index
          (update_row self (line_at self.grid.raw p) f).grid.raw
          (line_at self.grid.raw q)
        ≡ Storage.index self.grid.raw (line_at self.grid.raw q)
  unfolding update_row
  update_row-other self p q f v hp hq n =
      go (Storage.index self.grid.raw (line_at self.grid.raw p)) refl
    where
      go :
          (o : Option (Row (Cell x)))
          → Storage.index self.grid.raw (line_at self.grid.raw p) ≡ o
          → Storage.index
              (update_row self (line_at self.grid.raw p) f).grid.raw
              (line_at self.grid.raw q)
            ≡ Storage.index self.grid.raw (line_at self.grid.raw q)
      go none e = rw (update_row, e) refl
      go (some row) e = rw (update_row, e) (index-index_mut_ne self.grid.raw p q (f row) v hp hq n)

  -- The row up to the cursor made blank.
  abbrev blanked : Term x → Row (Cell x) → Row (Cell x)
  blanked self row =
      fill_to row (min (usize_add (cursor_point self).column 1) self.grid.columns) (blank self)

  raw_above :
      (self : Term x)
      → (cursor_point self).line ≡ pos 1
      → (clear_screen self above).grid.raw ≡ (update_row self (pos 1) (blanked self)).grid.raw
  unfolding clear_screen clear_above mark_fully_damaged
  raw_above self e =
      ap
        (λ z.
          (update_row (if ltb_ℤ (pos 1) z then reset_region self unbounded (excluded z) else self) z
            (blanked self)).grid.raw)
        e

  -- `clear_screen` of what is above the cursor leaves the first line of a screen with at least two
  -- lines as it is when the cursor is on the second line.
  pub clear_screen-first_line :
      (self : Term x)
      → IsValid self.grid.raw
      → 2 ≤ self.grid.raw.visible_lines
      → (cursor_point self).line ≡ pos 1
      → Storage.index (clear_screen self above).grid.raw (pos 0)
        ≡ Storage.index self.grid.raw (pos 0)
  clear_screen-first_line self v h e =
      let s = self.grid.raw in
      let n = s.visible_lines in
      ap (λ r. Storage.index r (pos 0)) (raw_above self e)
      ∙ ap2_lines (λ a b. Storage.index (update_row self a (blanked self)).grid.raw b)
          (line_one n h) (line_zero n h)
      ∙ update_row-other self (n - 2) (n - 1) (blanked self) v (omega (arith, h, v.visible_in))
          (omega (arith, h, v.visible_in)) (omega (arith, h))
      ∙ ap (Storage.index s) (line_zero n h)
