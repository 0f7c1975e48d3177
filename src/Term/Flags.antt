-- ===== src/Term/Flags.antt =====
-- The bits of `Flags` of velacritty_terminal/src/term/cell.rs, by position.
use velacritty.Prelude.{ℕ, List, [], ◌∷◌}

abbrev pub inverse : ℕ
inverse = 0

abbrev pub bold : ℕ
bold = 1

abbrev pub italic : ℕ
italic = 2

abbrev pub underline : ℕ
underline = 3

abbrev pub wrapline : ℕ
wrapline = 4

abbrev pub wide_char : ℕ
wide_char = 5

abbrev pub wide_char_spacer : ℕ
wide_char_spacer = 6

abbrev pub dim : ℕ
dim = 7

abbrev pub hidden : ℕ
hidden = 8

abbrev pub strikeout : ℕ
strikeout = 9

abbrev pub leading_wide_char_spacer : ℕ
leading_wide_char_spacer = 10

abbrev pub double_underline : ℕ
double_underline = 11

abbrev pub undercurl : ℕ
undercurl = 12

abbrev pub dotted_underline : ℕ
dotted_underline = 13

abbrev pub dashed_underline : ℕ
dashed_underline = 14

abbrev pub all_underlines : List ℕ
all_underlines = underline ∷ double_underline ∷ undercurl ∷ dotted_underline ∷ dashed_underline ∷ []
