-- ===== src/Term/View.antt =====
-- The damage of a frame, the vi cursor and the viewport (velacritty_terminal/src/term/mod.rs).
use velacritty.Prelude.{if◌then◌else◌}
use velacritty.Prelude.Bitflags
use velacritty.Prelude.Int.{pos, ltb_ℤ}
use velacritty.Prelude.Word.{i32_of, usize_of, ◌+ᵢ◌, ◌-ᵢ◌}
use velacritty.Index.{Point, bottommost_line}
use velacritty.Grid
use velacritty.Grid.{Scroll}
use velacritty.Grid.Ranges.{leb_ℤ}
use velacritty.Selection.{eq_point}
use velacritty.Term.Damage
use velacritty.Term.Damage.{TermDamageIterator}
use velacritty.Term.External.{External}
use velacritty.Term.Mode
use velacritty.Term.Scroll.{scroll_display}
use velacritty.Term.State
use velacritty.Term.State.{
  Term, size, has_mode, mark_fully_damaged, damage_cursor, cursor_point, send_event,
  vi_mode_recompute_selection,
}

pub data TermDamage : Type 0 where
  full : TermDamage
  partial : TermDamageIterator → TermDamage

module _ {x : External} where
  -- The damage with the cells of the last cursor and of this one.
  unfoldable pub cursor_damage : Term x → Point → Term x
  unfolding usize_of
  cursor_damage self previous =
      let moved : Term x = record self {
        damage =
            Damage.damage_point self.damage
              (record { line = usize_of previous.line; column = previous.column });
      } in
      damage_cursor (if eq_point (cursor_point self) previous then self else moved)

  unfoldable pub damage : Term x → TermDamage × Term x
  unfolding cursor_damage
  damage self =
      let marked = if has_mode self Mode.insert then mark_fully_damaged self else self in
      let previous = marked.damage.last_cursor in
      let replaced : Term x = record marked {
        damage = record marked.damage { last_cursor = cursor_point self };
      } in
      let damaged = cursor_damage replaced previous in
      if marked.damage.full
      then (full, replaced)
      else (partial (Damage.iterator damaged.damage.lines self.grid.display_offset), damaged)

  unfoldable pub reset_damage : Term x → Term x
  reset_damage self = record self { damage = Damage.reset self.damage self.grid.columns }

  -- Where the vi cursor starts.
  unfoldable pub vi_start : Term x → Point
  vi_start self =
      let display_offset = i32_of self.grid.display_offset in
      if ltb_ℤ (bottommost_line (size self) -ᵢ display_offset) (cursor_point self).line
      then record { line = pos 0 -ᵢ display_offset; column = 0 }
      else cursor_point self

  unfoldable pub toggle_vi_mode : Term x → Term x
  unfolding vi_start
  toggle_vi_mode self =
      let toggled : Term x = record self { mode = Bitflags.toggle self.mode Mode.vi } in
      let started : Term x =
        if has_mode toggled Mode.vi
        then record toggled { vi_mode_cursor = vi_start self }
        else toggled in
      send_event started State.cursor_blinking_change

  unfoldable pub scroll_to_point : Term x → Point → Term x
  scroll_to_point self point =
      let display_offset = i32_of self.grid.display_offset in
      let screen_lines = i32_of self.grid.lines in
      let up = point.line +ᵢ display_offset in
      let down = ((point.line +ᵢ display_offset) -ᵢ screen_lines) +ᵢ pos 1 in
      if ltb_ℤ point.line (pos 0 -ᵢ display_offset)
      then scroll_display self (Grid.delta (pos 0 -ᵢ up))
      else if leb_ℤ (screen_lines -ᵢ display_offset) point.line
      then scroll_display self (Grid.delta (pos 0 -ᵢ down))
      else self

  unfoldable pub vi_goto_point : Term x → Point → Term x
  unfolding scroll_to_point
  vi_goto_point self point =
      vi_mode_recompute_selection (record (scroll_to_point self point) { vi_mode_cursor = point })
