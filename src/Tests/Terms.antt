-- ===== src/Tests/Terms.antt =====
use velacritty.Prelude.{
  ℕ, ◌-◌, ◌≤◌, ◌<◌, ◌≡◌, ◌⊎◌, false, some, [], ◌==◌, map, length, take, get_elem?, arith, refl,
}
use velacritty.Prelude.Int.{negsuc, ◌+ℤ◌}
use velacritty.Prelude.Word.{◌+ᵢ◌, i32_of}
use velacritty.Prelude.Iterators.{filter}
use velacritty.Index.{Point}
use velacritty.Term.TabStops
use velacritty.Term.TabStops.{TabStops, is_tabstop, index-resize}
use velacritty.Term.ViewPoints.{
  ViewPoint, point_to_viewport, viewport_to_point, point_to_viewport-viewport_to_point,
  viewport_to_point-point_to_viewport,
}
use velacritty.Term.Damage
use velacritty.Term.Damage.{
  LineDamageBounds, TermDamageState, damage_line, iterator, is_damaged, expand, undamaged_lines,
}
use velacritty.Term.Damage.Visible.{Yields, shift, iterator-Yields}
use velacritty.Term.Damage.Bounds.{started, damaged, IsDamage, IsReachable-IsDamage}
use velacritty.Term.Damage.Covers.{Covers, damage_line_lem, reset-Yields}

-- Ten columns of which the stop of column 8 was removed.
abbrev ten_tabs : TabStops
ten_tabs = TabStops.index_mut (TabStops.new 10) 8 false

index-resize_example :
    ((16 < length ten_tabs.tabs)
      × (TabStops.index (TabStops.resize ten_tabs 20) 16 ≡ TabStops.index ten_tabs 16))
    ⊎ ((length ten_tabs.tabs ≤ 16)
        × (TabStops.index (TabStops.resize ten_tabs 20) 16 ≡ some (is_tabstop 16)))
index-resize_example = index-resize ten_tabs 20 16 (omega arith)

abbrev shown_point : ViewPoint
shown_point = record { line = 3; column = 5 }

-- Two lines into the history.
abbrev history_point : Point
history_point = record { line = negsuc 1; column = 5 }

viewport_runs : point_to_viewport 5 history_point ≡ some shown_point
unfolding point_to_viewport ◌+ᵢ◌ i32_of
viewport_runs = refl

point_to_viewport-viewport_to_point_example :
    point_to_viewport 5 (viewport_to_point 5 shown_point) ≡ some shown_point
point_to_viewport-viewport_to_point_example =
    point_to_viewport-viewport_to_point 5 shown_point (omega arith) (omega arith)

viewport_to_point-point_to_viewport_example : viewport_to_point 5 shown_point ≡ history_point
unfolding ◌+ℤ◌
viewport_to_point-point_to_viewport_example =
    viewport_to_point-point_to_viewport 5 history_point shown_point (omega arith)
      (omega arith, omega arith) (omega arith, omega arith) viewport_runs

abbrev fresh_damage : TermDamageState
fresh_damage = Damage.new 10 3

abbrev some_damage : TermDamageState
some_damage = damage_line fresh_damage 1 2 4

iterator-Yields_example :
    Yields
      (iterator some_damage.lines 1)
      (map (shift 1) (filter is_damaged (take (length some_damage.lines - 1) some_damage.lines)))
iterator-Yields_example = iterator-Yields some_damage.lines 1

-- The damage of an erasure up to the end of the line.
IsReachable-IsDamage_example : IsDamage 10 3 (damage_line fresh_damage 1 2 10).lines
IsReachable-IsDamage_example =
    IsReachable-IsDamage
      (damaged 10 3 fresh_damage 1 2 10 (omega arith) (omega arith) (omega arith) (started 10 3))

damage_line_lem_example :
    ((c : ℕ) → 2 ≤ c → c ≤ 4 → Covers some_damage.lines 1 c)
    × ((i c : ℕ) → Covers fresh_damage.lines i c → Covers some_damage.lines i c)
    × ((i : ℕ) → (1 == i) ≡ false → get_elem? some_damage.lines i ≡ get_elem? fresh_damage.lines i)
unfolding Damage.new undamaged_lines
damage_line_lem_example = damage_line_lem fresh_damage 1 2 4 (omega arith)

reset-Yields_example : Yields (iterator (Damage.reset some_damage 10).lines 0) []
reset-Yields_example = reset-Yields some_damage 10 0 (omega arith)
