-- ===== src/Selection/Contains.antt =====
-- `SelectionRange::contains` against the order of points.
use velacritty.Prelude.{◌≡◌, Bool, true, false, not, leb, refl, arith, ◌&&◌, ◌||◌, ◌∙◌, ap}
use velacritty.Index.{Point}
use velacritty.Grid.Ranges.{leb_ℤ, eq_ℤ}
use velacritty.Index.Points.{le_point, cmp}
use velacritty.Selection.{SelectionRange, contains}

-- Before the start, and after the end, of a selection that is no block.
above_lem :
    (s p : Point)
    → leb_ℤ s.line p.line && (leb s.column p.column || (not (eq_ℤ s.line p.line) && true))
      ≡ le_point s p
unfolding cmp
above_lem s p = ground arith

below_lem :
    (e p : Point)
    → leb_ℤ p.line e.line && (leb p.column e.column || (not (eq_ℤ e.line p.line) && true))
      ≡ le_point p e
unfolding cmp
below_lem e p = ground arith

regroup : (a b x y : Bool) → a && b && x && y ≡ (a && x) && (b && y)
regroup true true x y = refl
regroup true false true y = refl
regroup true false false y = refl
regroup false b x y = refl

-- A selection that is no block has exactly the points from its start to its end, in the order of
-- points.
pub contains_lem :
    (self : SelectionRange) (point : Point)
    → self.is_block ≡ false
    → contains self point ≡ le_point self.start point && le_point point self.end
unfolding contains
contains_lem self point e =
    let s = self.start in
    let t = self.end in
    let a = leb_ℤ s.line point.line in
    let b = leb_ℤ point.line t.line in
    let x = leb s.column point.column || (not (eq_ℤ s.line point.line) && true) in
    let y = leb point.column t.column || (not (eq_ℤ t.line point.line) && true) in
    rw e (
      regroup a b x y
      ∙ ap (λ c. c && (b && y)) (above_lem s point)
      ∙ ap (λ c. le_point s point && c) (below_lem t point))
