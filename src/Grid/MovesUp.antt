-- ===== src/Grid/MovesUp.antt =====
-- How a scroll moves the rows of a view, and how its loops come to that.
use velacritty.Prelude.{
  ℕ, ◌+◌, ◌-◌, ◌≤◌, ◌<◌, ◌≡◌, sym, ap, ◌∙◌, some, List, ◌++◌, arith, length, get_elem?, take,
  get_elem?-take, get_elem?-append_right, get_elem?_congr, length-append, length-take,
}
use velacritty.Grid.Cell.{GridCell}
use velacritty.Grid.Row
use velacritty.Grid.SwapLoop.{MovedDown}
use velacritty.Grid.ResetLoop.{IsReset}

module _ {ℓ} {T : Type ℓ} ⦃g : GridCell T⦄ where
  -- Rows `ys` from rows `xs`: the first `f` stay, `k` reset rows follow, and then those that `xs`
  -- has from `f` on, as many as make `n` more rows in all.
  pub record MovesUp (f k n : ℕ) (template : T) (xs ys : List (Row.Row T)) : Type ℓ where
    pub total : length ys ≡ length xs + n
    pub fixed : (q : ℕ) → q < f → get_elem? ys q ≡ get_elem? xs q
    pub fresh :
        (q : ℕ)
        → f ≤ q
        → q < f + k
        → (row : Row.Row T) × (get_elem? ys q ≡ some (Row.reset row template))
    pub moved : (q : ℕ) → f + k ≤ q → q < length xs + n → get_elem? ys q ≡ get_elem? xs (q - k)

  -- The moves of the loops, put together: `a` is the view before, `b` with more history, `c` after
  -- the rotation, `d` after the exchanges and `e` after the resets.
  pub compose_moves :
      (f k n : ℕ) (template : T) (a b c d e new : List (Row.Row T))
      → length b ≡ length a + n
      → take (length a) b ≡ a
      → length new ≡ k
      → n ≤ k
      → f + k ≤ length b
      → c ≡ new ++ take (length b - k) b
      → MovedDown 0 f k c d
      → IsReset f k template d e
      → f ≤ length a
      → MovesUp f k n template a e
  compose_moves f k n template a b c d e new lb pre ln nk fk ec md r fa =
      let lc : length c ≡ length b = rw ec (
        omega
          (arith, length-append new (take (length b - k) b), length-take (length b - k) b, ln)) in
      let old = λ (q : ℕ) (h : q < length a).
        sym (get_elem?-take (length a) b q h) ∙ ap (λ xs. get_elem? xs q) pre in
      let shifted = λ (q : ℕ) (h : q + k < length b).
        get_elem?_congr c {n = q + k} {m = length new + q} (omega (arith, ln))
        ∙ ap (λ xs. get_elem? xs (length new + q)) ec
        ∙ get_elem?-append_right new (take (length b - k) b) q
        ∙ get_elem?-take (length b - k) b q (omega arith) in
      record {
        total = r.same_length ∙ md.same_length ∙ lc ∙ lb;
        fixed = λ q h.
            r.before q h
            ∙ md.moved q (omega arith) (omega arith)
            ∙ shifted q (omega arith)
            ∙ old q (omega arith);
        fresh = λ q h h'. let (row, x, y) = r.inside q h h' in (row, y);
        moved = λ q h h'.
            r.after q h
            ∙ md.after q (omega arith)
            ∙ get_elem?_congr c {n = q} {m = q - k + k} (omega arith)
            ∙ shifted (q - k) (omega arith)
            ∙ old (q - k) (omega arith);
      }
