-- ===== src/Grid/ResetLoop.antt =====
-- What the loops that reset lines do to the rows of a storage.
use mathlib.Core.List.{map}
use velacritty.Prelude.{
  ℕ, zero, suc, ◌+◌, ◌≤◌, ◌<◌, ◌≡◌, ◌≢◌, refl, sym, ap, ◌∙◌, some, List, arith, length, get_elem?,
  set, get_elem?-some, get_elem?-set_self, get_elem?-set_ne, length-set, dec_lt,
}
use velacritty.Prelude.Int.{ℤ}
use velacritty.Grid.Cell.{GridCell}
use velacritty.Grid.Row
use velacritty.Grid.Storage
use velacritty.Grid.Storage.View.{view, index-line_at, index_mut-line_at, length-view}
use velacritty.Grid.Loops.{line, downwards, HasShape}
use velacritty.Grid.{reset_line, reset_lines}

module _ {ℓ} {T : Type ℓ} ⦃g : GridCell T⦄ where
  -- The rows at `b` up to `b + k` are reset by a template, and the others stay.
  pub record IsReset (b k : ℕ) (template : T) (xs ys : List (Row.Row T)) : Type ℓ where
    pub same_length : length ys ≡ length xs
    pub before : (q : ℕ) → q < b → get_elem? ys q ≡ get_elem? xs q
    pub inside :
        (q : ℕ)
        → b ≤ q
        → q < b + k
        → (row : Row.Row T) × (get_elem? xs q ≡ some row)
          × (get_elem? ys q ≡ some (Row.reset row template))
    pub after : (q : ℕ) → b + k ≤ q → get_elem? ys q ≡ get_elem? xs q

  reset_line-some :
      (template : T) (s : Storage.Storage T) (l : ℤ) {row : Row.Row T}
      → Storage.index s l ≡ some row
      → reset_line template s l ≡ Storage.index_mut s l (Row.reset row template)
  unfolding reset_line
  reset_line-some template s l e = rw (e, reset_line)

  reset_step :
      {v n : ℕ} (template : T) (s : Storage.Storage T) (p : ℕ)
      → HasShape v n s
      → p < n
      → let s' = reset_line template s (line v p) in
        HasShape v n s'
        × ((row : Row.Row T) × (get_elem? (view s) p ≡ some row)
            × (view s' ≡ set (view s) p (Row.reset row template)))
  unfolding Storage.index_mut
  reset_step template s p h hp =
      let (row, e) = get_elem?-some (view s) p (omega (arith, length-view h.valid, h)) in
      let found : Storage.index s (line s.visible_lines p) ≡ some row =
        index-line_at s p h.valid (omega (arith, h)) ∙ e in
      let r = index_mut-line_at s p (Row.reset row template) h.valid (omega (arith, h)) in
      rw (← h.visible, reset_line-some template s (line s.visible_lines p) found)
        (record { valid = r.0; visible = refl; used = h.used }, (row, e, r.1))

  pub reset_lines-IsReset :
      {v n : ℕ} (template : T) (b k : ℕ) (s : Storage.Storage T)
      → HasShape v n s
      → b + k ≤ n
      → let s' = reset_lines template (map (line v) (downwards b k)) s in
        HasShape v n s' × IsReset b k template (view s) (view s')
  unfolding reset_lines
  reset_lines-IsReset template b zero s h le = (
    h,
    record {
      same_length = refl;
      before = λ q _. refl;
      inside = λ q a c. absurd (omega arith);
      after = λ q _. refl;
    },
  )
  reset_lines-IsReset {v} {n} template b (suc k) s h le =
      let p = b + k in
      let s' = reset_line template s (line v p) in
      let (h', (row, found, written)) = reset_step {v = v} {n = n} template s p h (omega arith) in
      let (h'', r) = reset_lines-IsReset {v = v} {n = n} template b k s' h' (omega arith) in
      let new = Row.reset row template in
      let l : p < length (view s) = omega (arith, length-view h.valid, h) in
      let other = λ (q : ℕ) (d : p ≢ q).
        ap (λ xs. get_elem? xs q) written ∙ get_elem?-set_ne (view s) new d in
      (
        h'',
        record {
          same_length = r.same_length ∙ ap length written ∙ length-set (view s) p new;
          before = λ q a. r.before q a ∙ other q (omega arith);
          inside = λ q a c. elim (dec_lt q p) [
            | yes lt ↦
                let (row', e, f) = r.inside q a lt in (row', sym (other q (omega arith)) ∙ e, f)
            | no ge ↦
                let e : q ≡ p = omega arith in
                rw e (
                  row,
                  found,
                  r.after p (omega arith)
                      ∙ ap (λ xs. get_elem? xs p) written
                      ∙ get_elem?-set_self (view s) p new l,
                )
          ];
          after = λ q a. r.after q (omega arith) ∙ other q (omega arith);
        },
      )
