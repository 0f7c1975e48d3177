-- ===== src/Display/Damage.antt =====
-- velacritty/src/display/damage.rs: what has to be drawn again in a frame.
use velacritty.Prelude.{
  ℕ, zero, suc, ◌+◌, ◌-◌, Bool, true, false, not, ◌&&◌, ◌||◌, Option, none, some, List, [], ◌∷◌,
  ◌++◌, leb, if◌then◌else◌, get_elem?, set,
}
use velacritty.Prelude.Int.{ℤ, pos, ltb_ℤ}
use velacritty.Prelude.Word.{i32_of, usize_of, usize_sub, ◌+ᵢ◌, ◌-ᵢ◌}
use velacritty.Index.{min_ℤ, max_ℤ}
use velacritty.Selection.{SelectionRange, eq_point}
use velacritty.Term.Damage.{LineDamageBounds, expand, is_damaged, undamaged_lines}
use velacritty.Term.ViewPoints.{ViewPoint}

-- `Rect` of the crate glutin.
pub record Rect : Type 0 where
  pub x : ℤ
  pub y : ℤ
  pub width : ℤ
  pub height : ℤ

pub record FrameDamage : Type 0 where
  pub full : Bool
  pub lines : List LineDamageBounds
  pub rects : List Rect

abbrev pub default_frame : FrameDamage
default_frame = record { full = false; lines = []; rects = [] }

-- `self.lines[line].expand(left, right)`; a line out of bounds panics.
unfoldable pub expand_line : FrameDamage → ℕ → ℕ → ℕ → FrameDamage
expand_line self line left right = elim (get_elem? self.lines line) [
  | none ↦ self
  | some bounds ↦ record self { lines = set self.lines line (expand bounds left right) }
]

unfoldable pub damage_line : FrameDamage → LineDamageBounds → FrameDamage
damage_line self damage = expand_line self damage.line damage.left damage.right

unfoldable pub damage_point : FrameDamage → ViewPoint → FrameDamage
damage_point self point = expand_line self point.line point.column point.column

unfoldable pub mark_fully_damaged : FrameDamage → FrameDamage
mark_fully_damaged self = record self { full = true }

-- `size_height` is the height of the window in pixels.
unfoldable pub viewport_y_to_damage_y : ℤ → ℤ → ℤ → ℤ
viewport_y_to_damage_y size_height y height = (size_height -ᵢ y) -ᵢ height

unfoldable pub damage_y_to_viewport_y : ℤ → Rect → ℤ
damage_y_to_viewport_y size_height rect = (size_height -ᵢ rect.y) -ᵢ rect.height

unfoldable pub add_viewport_rect : FrameDamage → ℤ → ℤ → ℤ → ℤ → ℤ → FrameDamage
add_viewport_rect self size_height x y width height =
    let rect : Rect = record {
      x = x;
      y = viewport_y_to_damage_y size_height y height;
      width = width;
      height = height;
    } in
    record self { rects = self.rects ++ (rect ∷ []) }

unfoldable pub reset : FrameDamage → ℕ → ℕ → FrameDamage
reset self num_lines num_cols = record {
  full = false;
  rects = [];
  lines = undamaged_lines num_cols 0 num_lines;
}

-- `(left..=right).contains(&column)`, for a line that is there.
abbrev pub covers : Option LineDamageBounds → ℕ → Bool
covers none column = false
covers (some bounds) column = leb bounds.left column && leb column bounds.right

-- Whether one of `count` lines from a line on is damaged.
unfoldable pub any_damaged : List LineDamageBounds → ℕ → ℕ → Bool
any_damaged lines line zero = false
any_damaged lines line (suc count) =
    let here : Bool = elim (get_elem? lines line) [
      | none ↦ false
      | some bounds ↦ is_damaged bounds
    ] in
    here || any_damaged lines (line + 1) count

unfoldable pub intersects : FrameDamage → ViewPoint → ViewPoint → Bool
intersects self start end =
    self.full
    || covers (get_elem? self.lines start.line) start.column
    || covers (get_elem? self.lines end.line) end.column
    || any_damaged self.lines (start.line + 1) (end.line - (start.line + 1))

-- `frames[0]` is the frame that is drawn, `frames[1]` the next one.
pub record DamageTracker : Type 0 where
  pub old_vi_cursor : Option ViewPoint
  pub old_selection : Option SelectionRange
  pub debug : Bool
  pub frame : FrameDamage
  pub next_frame : FrameDamage
  pub screen_lines : ℕ
  pub columns : ℕ

unfoldable pub swap_damage : DamageTracker → DamageTracker
swap_damage self = record self {
  frame = self.next_frame;
  next_frame = reset self.frame self.screen_lines self.columns;
}

unfoldable pub resize : DamageTracker → ℕ → ℕ → DamageTracker
resize self screen_lines columns = record self {
  screen_lines = screen_lines;
  columns = columns;
  frame = record (reset self.frame screen_lines columns) { full = true };
  next_frame = reset self.next_frame screen_lines columns;
}

unfoldable pub new : ℕ → ℕ → DamageTracker
unfolding resize
new screen_lines columns =
    resize
      (record {
        old_vi_cursor = none;
        old_selection = none;
        debug = false;
        frame = default_frame;
        next_frame = default_frame;
        screen_lines = screen_lines;
        columns = columns;
      })
      screen_lines columns

abbrev pub damage_cursor : FrameDamage → Option ViewPoint → FrameDamage
damage_cursor frame none = frame
damage_cursor frame (some point) = damage_point frame point

unfoldable pub damage_vi_cursor : DamageTracker → Option ViewPoint → DamageTracker
damage_vi_cursor self vi_cursor =
    let replaced : DamageTracker = record self { old_vi_cursor = vi_cursor } in
    if self.frame.full then replaced else record replaced {
      frame = damage_cursor (damage_cursor self.frame vi_cursor) self.old_vi_cursor;
    }

abbrev pub eq_range : Option SelectionRange → Option SelectionRange → Bool
eq_range none none = true
eq_range (some a) (some b) =
    eq_point a.start b.start
    && eq_point a.end b.end
    && (if a.is_block then b.is_block else not b.is_block)
eq_range _ _ = false

-- `count` whole lines from a line on.
unfoldable pub expand_lines : FrameDamage → ℕ → ℕ → ℕ → FrameDamage
unfolding expand_line
expand_lines self right line zero = self
expand_lines self right line (suc count) =
    expand_lines (expand_line self line 0 right) right (line + 1) count

abbrev pub abs : ℤ → ℤ
abs z = if ltb_ℤ z (pos 0) then pos 0 -ᵢ z else z

-- The lines of a selection, ignored when invisible.
unfoldable pub damage_range : DamageTracker → ℕ → Option SelectionRange → DamageTracker
unfolding expand_lines
damage_range self display_offset none = self
damage_range self display_offset (some selection) =
    let offset = i32_of display_offset in
    let last_visible_line = i32_of self.screen_lines -ᵢ pos 1 in
    let start = usize_of (max_ℤ (selection.start.line +ᵢ offset) (pos 0)) in
    let end = usize_of (min_ℤ (max_ℤ (selection.end.line +ᵢ offset) (pos 0)) last_visible_line) in
    if ltb_ℤ (selection.end.line +ᵢ offset) (pos 0)
      || ltb_ℤ (abs selection.start.line) (offset -ᵢ last_visible_line)
    then self
    else record self {
      frame = expand_lines self.frame (usize_sub self.columns 1) start ((end + 1) - start);
    }

unfoldable pub damage_selection : DamageTracker → Option SelectionRange → ℕ → DamageTracker
unfolding damage_range
damage_selection self selection display_offset =
    let replaced : DamageTracker = record self { old_selection = selection } in
    if self.frame.full || eq_range self.old_selection selection
    then replaced
    else damage_range (damage_range replaced display_offset selection) display_offset
        self.old_selection

unfoldable pub rects_overlap : Rect → Rect → Bool
rects_overlap lhs rhs = not (
    ltb_ℤ (lhs.x +ᵢ lhs.width) rhs.x
    || ltb_ℤ (rhs.x +ᵢ rhs.width) lhs.x
    || ltb_ℤ (lhs.y +ᵢ lhs.height) rhs.y
    || ltb_ℤ (rhs.y +ᵢ rhs.height) lhs.y)

unfoldable pub merge_rects : Rect → Rect → Rect
merge_rects lhs rhs =
    let left_x = min_ℤ lhs.x rhs.x in
    let right_x = max_ℤ (lhs.x +ᵢ lhs.width) (rhs.x +ᵢ rhs.width) in
    let y_top = max_ℤ (lhs.y +ᵢ lhs.height) (rhs.y +ᵢ rhs.height) in
    let y_bottom = min_ℤ lhs.y rhs.y in
    record { x = left_x; y = y_bottom; width = right_x -ᵢ left_x; height = y_top -ᵢ y_bottom }
