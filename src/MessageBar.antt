-- ===== src/MessageBar.antt =====
-- velacritty/src/message_bar.rs: the messages that wait to be shown, and their text in lines.
use mathlib.Core.List.{reverse}
use velacritty.Prelude.{
  ℕ, zero, suc, ◌+◌, ◌-◌, Bool, true, false, not, ◌&&◌, ◌||◌, Option, none, some, List, [], ◌∷◌,
  ◌++◌, ltb, leb, ◌==◌, if◌then◌else◌, length, replicate, take,
}
use velacritty.Prelude.Iterators.{filter}

abbrev pub close_button_padding : ℕ
close_button_padding = 1

abbrev pub min_free_lines : ℕ
min_free_lines = 3

-- `[X]` and `[MESSAGE TRUNCATED]`, of ASCII characters.
abbrev pub close_button_text : List ℕ
close_button_text = b'[' ∷ b'X' ∷ b']' ∷ []

abbrev pub truncated_message : List ℕ
truncated_message =
    b'[' ∷ b'M' ∷ b'E' ∷ b'S' ∷ b'S' ∷ b'A' ∷ b'G' ∷ b'E' ∷ 32 ∷ b'T' ∷ b'R' ∷ b'U' ∷ b'N' ∷ b'C'
    ∷ b'A' ∷ b'T' ∷ b'E' ∷ b'D' ∷ b']' ∷ []

pub data MessageType : Type 0 where
  error warning : MessageType

-- A text is the list of its characters.
pub record Message : Type 0 where
  pub text : List ℕ
  pub ty : MessageType
  pub target : Option (List ℕ)

unfoldable pub new : List ℕ → MessageType → Message
new text ty = record { text = text; ty = ty; target = none }

unfoldable pub set_target : Message → List ℕ → Message
set_target self target = record self { target = some target }

abbrev pub eq_text : List ℕ → List ℕ → Bool
eq_text [] [] = true
eq_text (c ∷ cs) (d ∷ ds) = (c == d) && eq_text cs ds
eq_text _ _ = false

abbrev pub eq_type : MessageType → MessageType → Bool
eq_type error error = true
eq_type warning warning = true
eq_type _ _ = false

abbrev pub eq_target : Option (List ℕ) → Option (List ℕ) → Bool
eq_target none none = true
eq_target (some s) (some t) = eq_text s t
eq_target _ _ = false

-- The derived equality of messages.
abbrev pub eq_message : Message → Message → Bool
eq_message a b = eq_text a.text b.text && eq_type a.ty b.ty && eq_target a.target b.target

pub record MessageBuffer : Type 0 where
  pub messages : List Message

unfoldable pub is_empty : MessageBuffer → Bool
is_empty self = elim self.messages [ [] ↦ true | m ∷ ms ↦ false ]

unfoldable pub message : MessageBuffer → Option Message
message self = elim self.messages [ [] ↦ none | m ∷ ms ↦ some m ]

-- Remove the message itself, and all duplicates.
unfoldable pub pop : MessageBuffer → MessageBuffer
pop self = elim self.messages [
  | [] ↦ self
  | m ∷ ms ↦ record { messages = filter (λ other. not (eq_message other m)) ms }
]

unfoldable pub remove_target : MessageBuffer → List ℕ → MessageBuffer
remove_target self target = record {
  messages = filter (λ m. not (eq_target m.target (some target))) self.messages;
}

unfoldable pub push : MessageBuffer → Message → MessageBuffer
push self message = record { messages = self.messages ++ (message ∷ []) }

abbrev pub contains : List Message → Message → Bool
contains [] message = false
contains (m ∷ ms) message = eq_message m message || contains ms message

unfoldable pub is_queued : MessageBuffer → Message → Bool
is_queued self message = contains self.messages message

-- `pad_text`.
unfoldable pub pad_text : List ℕ → ℕ → List ℕ
pad_text text num_cols = text ++ replicate (num_cols - length text) 32

-- The bytes of a character in UTF-8.
abbrev pub len_utf8 : ℕ → ℕ
len_utf8 c = if ltb c 128 then 1 else if ltb c 2048 then 2 else if ltb c 65536 then 3 else 4

-- `String::truncate` to a number of bytes; `none` is the panic inside a character.
unfoldable pub truncate : ℕ → List ℕ → Option (List ℕ)
truncate zero text = some []
truncate (suc n) [] = some []
truncate (suc n) (c ∷ text) =
    let rest = truncate (suc n - len_utf8 c) text in
    if leb (len_utf8 c) (suc n)
    then elim rest [ none ↦ none | some kept ↦ some (c ∷ kept) ]
    else none

-- Append close button to first line.
unfoldable pub append_button : List (List ℕ) → ℕ → Option (List (List ℕ))
unfolding truncate
append_button [] num_cols = some []
append_button (line ∷ lines) num_cols =
    let button_len = length close_button_text in
    if leb button_len num_cols
    then elim (truncate (num_cols - button_len) line) [
      | none ↦ none
      | some kept ↦ some ((kept ++ close_button_text) ∷ lines)
    ]
    else some (line ∷ lines)

-- Truncate output if it's too long.
unfoldable pub truncate_lines : List (List ℕ) → ℕ → ℕ → List (List ℕ)
unfolding pad_text
truncate_lines lines max_lines num_cols =
    let kept = take max_lines lines in
    if leb (length lines) max_lines
    then lines
    else if ltb 0 max_lines && leb (length truncated_message) num_cols
    then take (max_lines - 1) lines ++ (pad_text truncated_message num_cols ∷ [])
    else kept

-- The lines that are full, the line, and the columns that it takes.
pub record Wrapping : Type 0 where
  pub lines : List (List ℕ)
  pub line : List ℕ
  pub line_len : ℕ

abbrev pub is_nil : List (List ℕ) → Bool
is_nil [] = true
is_nil (line ∷ lines) = false

-- Whether the line ends before a character.
unfoldable pub breaks : ℕ → Wrapping → ℕ → Bool
breaks num_cols self c =
    let button_len = length close_button_text in
    (c == 10)
    || (self.line_len == num_cols)
    || (is_nil self.lines
        && leb button_len num_cols
        && (self.line_len == (num_cols - (button_len + close_button_padding))))

-- The width of a character and the test for white space are the crates'.
module _ (char_width : ℕ → Option ℕ) (is_whitespace : ℕ → Bool) where
  -- The text before and after the last white space, which is taken out.
  unfoldable pub split_last : List ℕ → Option (List ℕ × (ℕ × List ℕ))
  split_last [] = none
  split_last (c ∷ cs) = elim (split_last cs) [
    | some (before, after) ↦ some (c ∷ before, after)
    | none ↦ if is_whitespace c then some ([], (c, cs)) else none
  ]

  -- The line that ends and the one that starts; `none` is the panic of `split_off` inside a white
  -- space of several bytes.
  unfoldable pub wrap_words : List ℕ → ℕ → Option (List ℕ × List ℕ)
  unfolding split_last
  wrap_words line c = elim (split_last line) [
    | none ↦ some (line, [])
    | some (before, (space, after)) ↦
        if is_whitespace c
        then some (line, [])
        else if len_utf8 space == 1
        then some (before, after)
        else none
  ]

  abbrev pub width_of : ℕ → ℕ
  width_of c = elim (char_width c) [ none ↦ 0 | some width ↦ width ]

  -- A character, and an extra column for one of full width.
  unfoldable pub push_char : Wrapping → ℕ → Wrapping
  push_char self c = record self {
    line = if width_of c == 2 then self.line ++ (c ∷ 32 ∷ []) else self.line ++ (c ∷ []);
    line_len = self.line_len + width_of c;
  }

  -- The loop of `Message::text` for one character.
  unfoldable pub wrap_char : ℕ → Wrapping → ℕ → Option Wrapping
  unfolding breaks wrap_words push_char pad_text
  wrap_char num_cols self c =
      if breaks num_cols self c
      then elim (wrap_words self.line c) [
        | none ↦ none
        | some (line, new_line) ↦
            let broken : Wrapping = record {
              lines = self.lines ++ (pad_text line num_cols ∷ []);
              line = new_line;
              line_len = length new_line;
            } in
            some (if is_whitespace c then broken else push_char broken c)
      ]
      else some (push_char self c)

  unfoldable pub wrap_chars : ℕ → Wrapping → List ℕ → Option Wrapping
  unfolding wrap_char
  wrap_chars num_cols self [] = some self
  wrap_chars num_cols self (c ∷ cs) = elim (wrap_char num_cols self c) [
    | none ↦ none
    | some next ↦ wrap_chars num_cols next cs
  ]

  abbrev pub trim_start : List ℕ → List ℕ
  trim_start [] = []
  trim_start (c ∷ cs) = let rest = trim_start cs in if is_whitespace c then rest else c ∷ cs

  abbrev pub trim : List ℕ → List ℕ
  trim text = reverse (trim_start (reverse (trim_start text)))

  -- `Message::text`, for a window with `num_cols` columns and `total_lines` lines, which the code
  -- works out from the sizes of the window and of a cell.
  unfoldable pub text : Message → ℕ → ℕ → Option (List (List ℕ))
  unfolding wrap_chars pad_text truncate_lines append_button
  text self num_cols total_lines =
      elim (wrap_chars num_cols (record { lines = []; line = []; line_len = 0 }) (trim self.text)) [
        | none ↦ none
        | some wrapped ↦
            let lines = wrapped.lines ++ (pad_text wrapped.line num_cols ∷ []) in
            append_button (truncate_lines lines (total_lines - min_free_lines) num_cols) num_cols
      ]
