-- ===== src/Selection/Emptiness.antt =====
-- `Selection::is_empty` after `Selection::include_all`.
use velacritty.Prelude.{
  ℕ, ◌<◌, ◌≤◌, ◌^◌, ◌≡◌, Bool, true, false, ltb, ◌==◌, refl, arith, Bool-cases, inl, inr, ◌&&◌,
  ◌||◌,
}
use velacritty.Prelude.Int.{ltb_ℤ}
use velacritty.Prelude.Word.{usize_add}
use velacritty.Index.{Point, left, right}
use velacritty.Index.Points.{lt_point}
use velacritty.Selection.{
  Selection, SelectionType, Anchor, simple, block, semantic, lines, is_empty, is_empty_simple,
  is_empty_block, include_all, starts_right, eq_point,
}

and_no : (b : Bool) → b && false ≡ false
and_no true = refl
and_no false = refl

outward_simple :
    (p q : Point)
    → is_empty_simple (record { point = p; side = left }) (record { point = q; side = right })
      ≡ false
unfolding is_empty_simple
outward_simple p q = rw (and_no (eq_point p q)) refl

outward_block :
    (p q : Point)
    → p.column < 2 ^ 63
    → q.column < 2 ^ 63
    → p.column ≤ q.column
    → is_empty_block (record { point = p; side = left }) (record { point = q; side = right })
      ≡ false
unfolding is_empty_block
outward_block p q h k l =
    let e : (usize_add q.column 1 == p.column) ≡ false = ground arith in
    rw (and_no (p.column == q.column), and_no (usize_add p.column 1 == q.column), e) refl

inward_block :
    (p q : Point)
    → p.column < 2 ^ 63
    → q.column < 2 ^ 63
    → q.column ≤ p.column
    → is_empty_block (record { point = p; side = right }) (record { point = q; side = left })
      ≡ false
unfolding is_empty_block
inward_block p q h k l =
    let e : (usize_add p.column 1 == q.column) ≡ false = ground arith in
    rw (and_no (p.column == q.column), and_no (usize_add q.column 1 == p.column), e) refl

columns_apart :
    (a b : ℕ) (same : Bool)
    → ((ltb b a || ((a == b) && same)) ≡ true → b ≤ a)
      × ((ltb b a || ((a == b) && same)) ≡ false → a ≤ b)
columns_apart a b true = (λ h. ground arith, λ h. ground arith)
columns_apart a b false = (λ h. ground arith, λ h. ground arith)

parts_lem :
    (ty : SelectionType) (s e : Anchor)
    → s.point.column < 2 ^ 63
    → e.point.column < 2 ^ 63
    → is_empty (include_all (record { ty = ty; start = s; end = e })) ≡ false
unfolding is_empty include_all starts_right
parts_lem simple s e h k = elim (Bool-cases (lt_point e.point s.point)) [
  | inl t ↦ rw t (outward_simple e.point s.point)
  | inr t ↦ rw t (outward_simple s.point e.point)
]
parts_lem block s e h k =
    let (over, under) =
      columns_apart s.point.column e.point.column (ltb_ℤ e.point.line s.point.line) in
    elim (Bool-cases (
      ltb e.point.column s.point.column
      || ((s.point.column == e.point.column) && ltb_ℤ e.point.line s.point.line))) [
        | inl t ↦ rw t (inward_block s.point e.point h k (over t))
        | inr t ↦ rw t (outward_block s.point e.point h k (under t))
      ]
parts_lem semantic s e h k = refl
parts_lem lines s e h k = refl

-- A selection whose sides include all the cells between its points is not empty, whatever its kind
-- and the order of its points, if its columns are below 2 ^ 63.
pub is_empty-include_all :
    (self : Selection)
    → self.start.point.column < 2 ^ 63
    → self.end.point.column < 2 ^ 63
    → is_empty (include_all self) ≡ false
is_empty-include_all self h k = parts_lem self.ty self.start self.end h k
