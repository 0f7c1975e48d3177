-- ===== src/Term/Damage.antt =====
-- The damage of the terminal since the last frame, in velacritty_terminal/src/term/mod.rs.
pub mod Visible
pub mod Bounds
pub mod Covers
use velacritty.Prelude.{
  ℕ, zero, suc, ◌+◌, ◌-◌, Bool, true, false, Option, none, some, List, [], ◌∷◌, map, leb, min, max,
  if◌then◌else◌, length, get_elem?, set, take,
}
use velacritty.Prelude.Int.{pos}
use velacritty.Prelude.Word.{usize_add}
use velacritty.Index.{Point}
use velacritty.Term.ViewPoints.{ViewPoint}

pub record LineDamageBounds : Type 0 where
  pub line : ℕ
  pub left : ℕ
  pub right : ℕ

unfoldable pub undamaged : ℕ → ℕ → LineDamageBounds
undamaged line num_cols = record { line = line; left = num_cols; right = 0 }

unfoldable pub reset_line : LineDamageBounds → ℕ → LineDamageBounds
reset_line self num_cols = undamaged self.line num_cols

unfoldable pub expand : LineDamageBounds → ℕ → ℕ → LineDamageBounds
expand self left right = record self { left = min self.left left; right = max self.right right }

unfoldable pub is_damaged : LineDamageBounds → Bool
is_damaged self = leb self.left self.right

-- `line_damage` has the lines that the iterator has not gone through.
pub record TermDamageIterator : Type 0 where
  pub line_damage : List LineDamageBounds
  pub display_offset : ℕ

unfoldable pub iterator : List LineDamageBounds → ℕ → TermDamageIterator
iterator line_damage display_offset = record {
  line_damage = take (length line_damage - display_offset) line_damage;
  display_offset = display_offset;
}

-- `Iterator::find_map` on a slice: the first result, and the elements after it.
abbrev pub find_map : {A B : Type 0} → (A → Option B) → List A → Option B × List A
find_map f [] = (none, [])
find_map f (x ∷ xs) = elim (f x) [ none ↦ find_map f xs | some y ↦ (some y, xs) ]

unfoldable pub visible : ℕ → LineDamageBounds → Option LineDamageBounds
visible display_offset line =
    if is_damaged line
    then some (record line { line = usize_add line.line display_offset })
    else none

unfoldable pub next : TermDamageIterator → Option LineDamageBounds × TermDamageIterator
next self =
    let (found, rest) = find_map (visible self.display_offset) self.line_damage in
    (found, record self { line_damage = rest })

pub record TermDamageState : Type 0 where
  pub full : Bool
  pub lines : List LineDamageBounds
  pub last_cursor : Point

-- `(line..line + count).map(..)`.
unfoldable pub undamaged_lines : ℕ → ℕ → ℕ → List LineDamageBounds
undamaged_lines num_cols line zero = []
undamaged_lines num_cols line (suc count) =
    undamaged line num_cols ∷ undamaged_lines num_cols (line + 1) count

unfoldable pub new : ℕ → ℕ → TermDamageState
new num_cols num_lines = record {
  full = true;
  lines = undamaged_lines num_cols 0 num_lines;
  last_cursor = record { line = pos 0; column = 0 };
}

unfoldable pub resize : TermDamageState → ℕ → ℕ → TermDamageState
resize self num_cols num_lines = record {
  full = true;
  lines = undamaged_lines num_cols 0 num_lines;
  last_cursor = record { line = pos 0; column = 0 };
}

-- A line out of bounds panics.
unfoldable pub damage_line : TermDamageState → ℕ → ℕ → ℕ → TermDamageState
damage_line self line left right = elim (get_elem? self.lines line) [
  | none ↦ self
  | some bounds ↦ record self { lines = set self.lines line (expand bounds left right) }
]

unfoldable pub damage_point : TermDamageState → ViewPoint → TermDamageState
damage_point self point = damage_line self point.line point.column point.column

unfoldable pub reset : TermDamageState → ℕ → TermDamageState
reset self num_cols = record self {
  full = false;
  lines = map (λ line. reset_line line num_cols) self.lines;
}
