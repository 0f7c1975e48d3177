-- ===== src/Tests/Messages.antt =====
-- Runs of the message bar, the first as in the tests of velacritty/src/message_bar.rs.
use velacritty.Prelude.{
  ℕ, ◌≡◌, Bool, ◌||◌, Option, none, some, List, [], ◌∷◌, ◌==◌, if◌then◌else◌, refl,
}
use velacritty.MessageBar
use velacritty.MessageBar.{
  Message, error, text, wrap_chars, wrap_char, breaks, wrap_words, push_char, pad_text, split_last,
  truncate_lines, append_button, truncate,
}

-- The euro sign has three bytes in UTF-8; the character of number 12354 takes two columns.
abbrev width : ℕ → Option ℕ
width c = some (if c == 12354 then 2 else 1)

abbrev is_whitespace : ℕ → Bool
is_whitespace c = (c == 32) || (c == 10)

abbrev shown : List ℕ → ℕ → Option (List (List ℕ))
shown chars num_cols = text width is_whitespace (MessageBar.new chars error) num_cols 10

button_run : shown (b'a' ∷ []) 7 ≡ some ((b'a' ∷ 32 ∷ 32 ∷ 32 ∷ b'[' ∷ b'X' ∷ b']' ∷ []) ∷ [])
unfolding text wrap_chars wrap_char breaks wrap_words push_char pad_text split_last truncate_lines
    append_button truncate MessageBar.new
button_run = refl

-- The cut for the button falls inside the second euro sign.
euro_run : shown (8364 ∷ 8364 ∷ []) 7 ≡ none
unfolding text wrap_chars wrap_char breaks wrap_words push_char pad_text split_last truncate_lines
    append_button truncate MessageBar.new
euro_run = refl

-- A line of one column that starts with a character of two columns does not end.
wide_run : shown (12354 ∷ 12354 ∷ []) 1 ≡ some ((12354 ∷ 32 ∷ 12354 ∷ 32 ∷ []) ∷ [])
unfolding text wrap_chars wrap_char breaks wrap_words push_char pad_text split_last truncate_lines
    append_button truncate MessageBar.new
wide_run = refl
