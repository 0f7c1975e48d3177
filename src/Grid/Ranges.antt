-- ===== src/Grid/Ranges.antt =====
-- Loops over ranges of lines, `for i in (a..b).map(Line::from)`.
use velacritty.Prelude.{ℕ, zero, suc, ◌-◌, ◌+◌, Bool, not, List, [], ◌∷◌, ◌==◌}
use velacritty.Prelude.Int.{ℤ, pos, pos_part, neg_part, ◌+ℤ◌, ltb_ℤ}

abbrev pub leb_ℤ : ℤ → ℤ → Bool
leb_ℤ a b = not (ltb_ℤ b a)

abbrev pub eq_ℤ : ℤ → ℤ → Bool
eq_ℤ a b = (pos_part a + neg_part b) == (pos_part b + neg_part a)

-- `count` lines from `a` on.
abbrev pub lines_from : ℤ → ℕ → List ℤ
lines_from a zero = []
lines_from a (suc count) = a ∷ lines_from (a +ℤ pos 1) count

-- The lines of `a..b`.
abbrev pub lines_between : ℤ → ℤ → List ℤ
lines_between a b = lines_from a (pos_part b + neg_part a - (pos_part a + neg_part b))
