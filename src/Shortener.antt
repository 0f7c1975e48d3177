-- ===== src/Shortener.antt =====
-- velacritty/src/string.rs: an iterator over a text that is cut to a width.
pub mod Left
pub mod Fits
use Prim.Native.Nat.{compare, Ordering}
use mathlib.Core.List.{reverse}
use velacritty.Prelude.{
  ℕ, ◌+◌, ◌-◌, Bool, true, false, ◌&&◌, ◌||◌, Option, none, some, List, [], ◌∷◌, ltb, ◌==◌,
  if◌then◌else◌, length, drop,
}

pub data TextAction : Type 0 where
  spacer terminate shortener char : TextAction

pub data ShortenDirection : Type 0 where
  left right : ShortenDirection

-- The characters are a parameter; `chars` has those that are left.
pub record StrShortener (C : Type 0) : Type 0 where
  pub chars : List C
  pub accumulated_len : ℕ
  pub max_width : ℕ
  pub direction : ShortenDirection
  pub shortener_char : Option C
  pub text_action : TextAction

-- What the loop of `new` ends with: the iterator's place, and the variables.
pub record Scan (C : Type 0) : Type 0 where
  pub iter : List C
  pub index : ℕ
  pub offset : ℕ
  pub current_len : ℕ
  pub shortener_char : Option C

module _ {C : Type 0} where
  abbrev pub is_some : Option C → Bool
  is_some none = false
  is_some (some c) = true

  abbrev pub is_empty : List C → Bool
  is_empty [] = true
  is_empty (c ∷ cs) = false

-- `width` is that of the crate unicode-width.
module _ {C : Type 0} (width : C → Option ℕ) where
  -- `ch.width().unwrap_or(1)`.
  unfoldable pub char_width : C → ℕ
  char_width c = elim (width c) [ none ↦ 1 | some w ↦ w ]

  -- The loop over the reversed text; `index` numbers the next character. A break leaves the
  -- characters after the one that it stopped at.
  unfoldable pub scan : ℕ → List C → ℕ → ℕ → ℕ → Option C → Scan C
  scan max_width [] index offset current_len sh = record {
    iter = [];
    index = index;
    offset = offset;
    current_len = current_len;
    shortener_char = sh;
  }
  scan max_width (c ∷ cs) index offset current_len sh =
      let len = current_len + char_width c in
      let stop : Scan C = record {
        iter = cs;
        index = index + 1;
        offset = offset;
        current_len = len;
        shortener_char = sh;
      } in
      elim (compare len max_width) [
        | Ordering.gt ↦ stop
        | Ordering.eq ↦
            if is_some sh && (if is_empty cs then false else true)
            then stop
            else scan max_width cs (index + 1) (index + 1) len none
        | Ordering.lt ↦ scan max_width cs (index + 1) (index + 1) len sh
      ]

  -- `iter.last().map_or(offset, |(idx, _)| idx + 1)`.
  unfoldable pub num_chars : Scan C → ℕ
  num_chars s = elim s.iter [ [] ↦ s.offset | c ∷ cs ↦ s.index + length s.iter ]

  unfoldable pub new_left : List C → ℕ → Option C → StrShortener C
  new_left text max_width sh =
      let s = scan max_width (reverse text) 0 0 0 sh in
      record {
        chars = drop (num_chars s - s.offset) text;
        accumulated_len = 0;
        max_width = max_width;
        direction = left;
        shortener_char = s.shortener_char;
        text_action =
            if ltb s.current_len max_width || (if is_some s.shortener_char then false else true)
            then char
            else shortener;
      }

  unfoldable pub new : List C → ℕ → ShortenDirection → Option C → StrShortener C
  new text max_width direction sh =
      let sh' = if is_empty text then none else sh in
      elim direction [
        | right ↦ record {
          chars = text;
          accumulated_len = 0;
          max_width = max_width;
          direction = right;
          shortener_char = sh';
          text_action = char;
        }
        | left ↦ new_left text max_width sh'
      ]

  -- The arm `TextAction::Char` on the next character.
  unfoldable pub next_char : StrShortener C → C → List C → Option C × StrShortener C
  next_char self c cs =
      let w = char_width c in
      let len = self.accumulated_len + w in
      let after = record self { chars = cs; accumulated_len = len } in
      if ltb self.max_width len
      then (self.shortener_char, record after { text_action = terminate })
      else if (len == self.max_width) && is_some self.shortener_char
      then (
        if is_empty cs then some c else self.shortener_char,
        record after { text_action = terminate },
      )
      else (some c, if w == 2 then record after { text_action = spacer } else after)

  -- `space` is the character ' '.
  unfoldable pub next : C → StrShortener C → Option C × StrShortener C
  next space self = elim self.text_action [
    | spacer ↦ (some space, record self { text_action = char })
    | terminate ↦ (none, self)
    | shortener ↦ (
      self.shortener_char,
      record self {
        text_action = elim self.direction [ left ↦ char | right ↦ terminate ];
        shortener_char = none;
      },
    )
    | char ↦ elim self.chars [ [] ↦ (none, self) | c ∷ cs ↦ next_char self c cs ]
  ]
