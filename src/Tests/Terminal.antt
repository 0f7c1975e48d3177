-- ===== src/Tests/Terminal.antt =====
-- A small terminal, and the properties of the terminal's handlers on it.
use velacritty.Prelude.{
  ◌⊎◌, ℕ, ◌≤◌, ◌<◌, ◌≡◌, Bool, true, false, not, none, some, List, [], ◌∷◌, ◌==◌, arith, refl,
  length, length-replicate, replicate, if◌then◌else◌,
}
use velacritty.Prelude.Bitflags
use velacritty.Prelude.Int.{◌≤ℤ◌, pos, ◌-ℤ◌}
use velacritty.Prelude.Word.{i32_of, i32_wrap, usize_of, ◌-ᵢ◌}
use velacritty.Index.{Point, IsSized, topmost_line, history_size}
use velacritty.Term.Search.{line_search_left}
use velacritty.Term.Search.Wrapped.{goes_up, wraps_on, ◌<ℤ◌, line_search_left_lem}
use velacritty.Grid.{Cursor, Grid}
use velacritty.Grid.Row.{Row}
use velacritty.Grid.Storage
use velacritty.Grid.Storage.{Storage}
use velacritty.Grid.Storage.Index.{IsValid}
use velacritty.Term.Cell.{Cell}
use velacritty.Term.Cursor.Inside.{OnScreen}
use velacritty.Term.Cursor.Moves.{input, run, run-OnScreen}
use velacritty.Term.Damage
use velacritty.Term.Edit.{insert_blank, delete_chars, blank}
use velacritty.Term.Edit.Rows.{InRow, cell_at, insert_blank_lem, delete_chars_lem}
use velacritty.Term.External.{External}
use velacritty.Term.Mode
use velacritty.Term.Screen.{above, clear_screen, swap_alt}
use velacritty.Term.Screen.Above.{clear_screen-first_line}
use velacritty.Term.Screen.Swap.{swap_alt-swap_alt}
use velacritty.Term.Stacks.{
  last_or, pop_keyboard_modes, pop_title, push_keyboard_mode, push_title, set_title,
}
use velacritty.Term.Stacks.Keyboard.{pop_keyboard_modes-push_keyboard_mode, push_keyboard_mode-full}
use velacritty.Term.Stacks.Titles.{pop_title-push_title}
use velacritty.Term.State
use velacritty.Term.State.{size, Config, Term, has_mode}
use velacritty.Term.TabStops

eq_number : (a b : ℕ) → (a == b) ≡ true → a ≡ b
eq_number a b e = ground arith

-- Colours, texts and modes are numbers; every character takes a cell, but the one of number 300,
-- which takes two.
abbrev x : External
x = record {
  Color = ℕ;
  background = 0;
  foreground = 1;
  eq_color = λ a b. a == b;
  eq_color_sound = eq_number;
  Rgb = ℕ;
  eq_rgb = λ a b. a == b;
  cursor_color = 258;
  Text = ℕ;
  Charset = ℕ;
  map_char = λ s c. c;
  CursorShape = ℕ;
  KeyboardModes = ℕ;
  no_mode = 0;
  has_flag = λ m f. not (m == 0);
  width = λ c. some (if c == 300 then 2 else 1);
}

abbrev letter : ℕ → Cell x
letter c = record { c = c; fg = 1; bg = 0; flags = Bitflags.empty; extra = none }

abbrev row_of : ℕ → ℕ → ℕ → ℕ → Row (Cell x)
row_of a b c d = record { inner = letter a ∷ letter b ∷ letter c ∷ letter d ∷ []; occ = 4 }

-- Two lines of four columns: `abcd` above `efgh`.
abbrev letters : Storage (Cell x)
letters = record {
  inner = row_of b'e' b'f' b'g' b'h' ∷ row_of b'a' b'b' b'c' b'd' ∷ [];
  zero = 0;
  visible_lines = 2;
  len = 2;
}

abbrev cursor_in : ℕ → ℕ → Bool → Cursor (Cell x) ℕ
cursor_in line column wrap = record {
  point = record { line = pos line; column = column };
  template = letter 32;
  charsets = 0 ∷ 0 ∷ 0 ∷ 0 ∷ [];
  input_needs_wrap = wrap;
}

abbrev grid_with : ℕ → ℕ → Bool → Grid (Cell x) ℕ
grid_with line column wrap = record {
  raw = letters;
  max_scroll_limit = 10;
  display_offset = 0;
  saved_cursor = cursor_in 0 0 false;
  cursor = cursor_in line column wrap;
  auto_scroll_enabled = true;
  lines = 2;
  columns = 4;
}

abbrev config : Config x
config = record {
  scrolling_history = 10;
  default_cursor_style = record { shape = 0; blinking = false };
  vi_mode_cursor_style = none;
  semantic_escape_chars = 32 ∷ [];
  kitty_keyboard = true;
  auto_scroll = true;
}

-- The terminal with its cursor at a point, and a stack of keyboard modes.
abbrev term_at : ℕ → ℕ → Bool → List ℕ → Term x
term_at line column wrap modes = record {
  is_focused = true;
  vi_mode_cursor = record { line = pos 0; column = 0 };
  selection = none;
  grid = grid_with line column wrap;
  inactive_grid = grid_with 0 0 false;
  active_charset = 0;
  tabs = TabStops.new 4;
  mode = Mode.default;
  scroll_region = record { start = pos 0; end = pos 2 };
  colors = [];
  cursor_style = none;
  event_proxy = [];
  title = some 7;
  title_stack = some 5 ∷ [];
  keyboard_mode_stack = modes;
  inactive_keyboard_mode_stack = [];
  damage = Damage.new 4 2;
  config = config;
}

abbrev small : Term x
small = term_at 0 1 false (3 ∷ [])

small-OnScreen : (column : ℕ) (wrap : Bool) → column < 4 → OnScreen (term_at 1 column wrap [])
small-OnScreen column wrap h = record {
  some_line = omega arith;
  some_column = omega arith;
  wide_column = omega arith;
  lines_fit = omega arith;
  columns_fit = omega arith;
  region_starts = omega arith;
  region_order = omega arith;
  region_ends = omega arith;
  here = record { above = omega arith; below = omega arith; within = h };
  saved_in = record { above = omega arith; below = omega arith; within = omega arith };
  other_lines = refl;
  other_columns = refl;
  other_here = record { above = omega arith; below = omega arith; within = omega arith };
  other_saved = record { above = omega arith; below = omega arith; within = omega arith };
}

-- A wide character after the last column of the last line.
run-OnScreen_example : OnScreen (run 0 (term_at 1 3 true []) (input 300))
run-OnScreen_example =
    run-OnScreen 0 (term_at 1 3 true []) (input 300) tt (small-OnScreen 3 true (omega arith))

small-InRow : InRow small (row_of b'a' b'b' b'c' b'd')
unfolding Storage.index Storage.compute_index usize_of i32_of ◌-ᵢ◌ ◌-ℤ◌ i32_wrap
small-InRow = record { here = refl; whole = refl; within = omega arith; fits = omega arith }

insert_blank_lem_example : cell_at (insert_blank small 1) 2 ≡ cell_at small 1
insert_blank_lem_example =
    insert_blank_lem small (row_of b'a' b'b' b'c' b'd') 1 2 small-InRow (omega arith)

-- All four cells are blank, the one before the cursor too.
delete_chars_lem_example : cell_at (delete_chars small 4) 0 ≡ some (blank small)
delete_chars_lem_example =
    delete_chars_lem small (row_of b'a' b'b' b'c' b'd') 4 0 small-InRow (omega arith)

pop_title-push_title_example : pop_title (set_title (push_title small) (some 9)) ≡ record small {
  title = some 7;
  title_stack = some 5 ∷ [];
  event_proxy = State.title 9 ∷ State.title 7 ∷ [];
}
pop_title-push_title_example = pop_title-push_title small (some 9)

pop_keyboard_modes-push_keyboard_mode_example :
    (pushed : Term x) × (push_keyboard_mode small 4 ≡ some pushed)
    × ((pop_keyboard_modes pushed 1).keyboard_mode_stack ≡ 3 ∷ [])
    × ((pop_keyboard_modes pushed 1).title_stack ≡ some 5 ∷ [])
    × ((pop_keyboard_modes pushed 1).mode 20 ≡ Mode.from_keyboard_modes x 3 20)
unfolding last_or
pop_keyboard_modes-push_keyboard_mode_example =
    pop_keyboard_modes-push_keyboard_mode small 4 20 refl (omega arith)

length-zeros : (n a : ℕ) → n ≤ length (replicate n a)
length-zeros n a = omega (arith, length-replicate n a)

small-IsSized : IsSized (size small)
small-IsSized = record {
  some_line = omega arith;
  some_column = omega arith;
  column_fits = omega arith;
  screen_in = omega arith;
  total_fits = omega arith;
}

abbrev lower : Point
lower = record { line = pos 1; column = 2 }

line_search_left_lem_example :
    ((line_search_left small lower).column ≡ 0)
    × (topmost_line (size small) ≤ℤ (line_search_left small lower).line)
    × ((line_search_left small lower).line ≤ℤ pos 1)
    × (goes_up small (line_search_left small lower).line ≡ false)
    × ((wraps_on small (pos 0) ≡ true)
        ⊎ ((pos 0 <ℤ (line_search_left small lower).line) ⊎ (pos 1 ≤ℤ pos 0)))
unfolding topmost_line history_size i32_of ◌-ᵢ◌ ◌-ℤ◌ i32_wrap
line_search_left_lem_example =
    line_search_left_lem small lower (pos 0) small-IsSized (omega arith) (omega arith)

abbrev full : Term x
full = term_at 0 1 false (replicate 4096 0)

push_keyboard_mode-full_example :
    (pushed : Term x) × (push_keyboard_mode full 4 ≡ some pushed)
    × (pushed.title_stack ≡ [])
    × (4096 < length pushed.keyboard_mode_stack)
push_keyboard_mode-full_example =
    push_keyboard_mode-full full 4 (some 5) [] refl (length-zeros 4096 0) refl

swap_alt-swap_alt_example :
    (has_mode (swap_alt small) Mode.alt_screen ≡ true)
    × ((swap_alt small).grid.cursor ≡ small.grid.cursor)
    × (has_mode (swap_alt (swap_alt small)) Mode.alt_screen ≡ false)
    × ((swap_alt (swap_alt small)).grid ≡ record small.grid { saved_cursor = small.grid.cursor })
    × ((swap_alt (swap_alt small)).keyboard_mode_stack ≡ small.keyboard_mode_stack)
    × ((swap_alt (swap_alt small)).inactive_keyboard_mode_stack
        ≡ small.inactive_keyboard_mode_stack)
unfolding Mode.default
swap_alt-swap_alt_example = swap_alt-swap_alt small refl

letters-IsValid : IsValid letters
letters-IsValid = record {
  zero_in = omega arith;
  len_in = omega arith;
  visible_in = omega arith;
  some_line = omega arith;
  fits = omega arith;
}

clear_screen-first_line_example :
    Storage.index (clear_screen (term_at 1 2 false []) above).grid.raw (pos 0)
    ≡ Storage.index letters (pos 0)
clear_screen-first_line_example =
    clear_screen-first_line (term_at 1 2 false []) letters-IsValid (omega arith) refl
