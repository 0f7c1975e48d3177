-- ===== src/Term/Cell.antt =====
-- velacritty_terminal/src/term/cell.rs: a cell with its attributes, as a cell of a grid.
pub mod Extra
use mathlib.Core.List.{reverse}
use velacritty.Prelude.{
  ℕ, zero, suc, ◌+◌, ◌-◌, ◌≡◌, Bool, true, false, not, ◌&&◌, ◌||◌, Option, none, some, List, [],
  ◌∷◌, ◌++◌, ◌==◌, if◌then◌else◌, length, get_elem?, refl, ap,
}
use velacritty.Prelude.Bitflags.{Bits, empty, intersects, remove, contains}
use velacritty.Grid.Cell.{GridCell, IsLawful}
use velacritty.Grid.Row
use velacritty.Term.External.{External}
use velacritty.Term.Flags

-- `Arc` is the shared value; `Arc::make_mut` writes to a copy.
pub record Hyperlink (x : External) : Type 0 where
  pub id : x.Text
  pub uri : x.Text

pub record CellExtra (x : External) : Type 0 where
  pub zerowidth : List ℕ
  pub underline_color : Option x.Color
  pub hyperlink : Option (Hyperlink x)

pub record Cell (x : External) : Type 0 where
  pub c : ℕ
  pub fg : x.Color
  pub bg : x.Color
  pub flags : Bits
  pub extra : Option (CellExtra x)

abbrev pub space : ℕ
space = 32

abbrev pub tab : ℕ
tab = 9

abbrev pub is_none : {A : Type 0} → Option A → Bool
is_none none = true
is_none (some a) = false

abbrev pub is_nil : List ℕ → Bool
is_nil [] = true
is_nil (c ∷ cs) = false

module _ {x : External} where
  abbrev pub default_extra : CellExtra x
  default_extra = record { zerowidth = []; underline_color = none; hyperlink = none }

  abbrev pub default : Cell x
  default = record { c = space; fg = x.foreground; bg = x.background; flags = empty; extra = none }

  -- `From<Color>`.
  unfoldable pub from_color : x.Color → Cell x
  from_color color = record default { bg = color }

  -- `extra.get_or_insert(Default::default())`.
  abbrev pub get_or_insert : Option (CellExtra x) → CellExtra x
  get_or_insert none = default_extra
  get_or_insert (some extra) = extra

  unfoldable pub zerowidth : Cell x → Option (List ℕ)
  zerowidth self = elim self.extra [ none ↦ none | some extra ↦ some extra.zerowidth ]

  unfoldable pub push_zerowidth : Cell x → ℕ → Cell x
  push_zerowidth self character =
      let extra = get_or_insert self.extra in
      record self {
        extra = some (record extra { zerowidth = extra.zerowidth ++ (character ∷ []) });
      }

  unfoldable pub clear_wide : Cell x → Cell x
  clear_wide self = record self {
    flags = remove self.flags Flags.wide_char;
    extra = elim self.extra [ none ↦ none | some extra ↦ some (record extra { zerowidth = [] }) ];
    c = space;
  }

  -- `extra.is_none_or(..)`: the extra storage has neither characters nor a hyperlink.
  unfoldable pub drops_color : Option (CellExtra x) → Bool
  drops_color none = true
  drops_color (some extra) = is_nil extra.zerowidth && is_none extra.hyperlink

  unfoldable pub set_underline_color : Cell x → Option x.Color → Cell x
  set_underline_color self color =
      if is_none color && drops_color self.extra
      then record self { extra = none }
      else record self {
        extra = some (record (get_or_insert self.extra) { underline_color = color });
      }

  unfoldable pub underline_color : Cell x → Option x.Color
  underline_color self = elim self.extra [ none ↦ none | some extra ↦ extra.underline_color ]

  unfoldable pub drops_hyperlink : Option (CellExtra x) → Bool
  drops_hyperlink none = true
  drops_hyperlink (some extra) = is_nil extra.zerowidth && is_none extra.underline_color

  unfoldable pub set_hyperlink : Cell x → Option (Hyperlink x) → Cell x
  set_hyperlink self hyperlink =
      if is_none hyperlink && drops_hyperlink self.extra
      then record self { extra = none }
      else record self {
        extra = some (record (get_or_insert self.extra) { hyperlink = hyperlink });
      }

  unfoldable pub hyperlink : Cell x → Option (Hyperlink x)
  hyperlink self = elim self.extra [ none ↦ none | some extra ↦ extra.hyperlink ]

  -- `extra.map(|extra| extra.zerowidth.is_empty()) != Some(false)`.
  abbrev pub no_zerowidth : Option (CellExtra x) → Bool
  no_zerowidth none = true
  no_zerowidth (some extra) = is_nil extra.zerowidth

  unfoldable pub is_empty : Cell x → Bool
  is_empty self =
      (self.c == space || self.c == tab)
      && x.eq_color self.bg x.background
      && x.eq_color self.fg x.foreground
      && not (
          intersects self.flags (
            Flags.inverse ∷ Flags.underline ∷ Flags.double_underline ∷ Flags.undercurl
            ∷ Flags.dotted_underline ∷ Flags.dashed_underline ∷ Flags.strikeout ∷ Flags.wrapline
            ∷ Flags.wide_char_spacer ∷ Flags.leading_wide_char_spacer ∷ []))
      && no_zerowidth self.extra

  -- `GridCell::reset`.
  unfoldable pub reset : Cell x → Cell x → Cell x
  reset self template = record default { bg = template.bg }

  instance abbrev pub cell : GridCell (Cell x)
  cell = record {
    default = default;
    is_empty = is_empty;
    reset = reset;
    same_discriminant = λ a b. x.eq_color a.bg b.bg;
  }

  -- The cells of the terminal meet the laws that the grid relies on: what a reset leaves depends on
  -- the background of the template alone, and the default template leaves the default cell.
  pub cell-IsLawful : IsLawful cell
  unfolding reset
  cell-IsLawful = record {
    reset_any = λ a b t. refl;
    reset_same = λ a t u e. ap (λ k. record default { bg = k }) (x.eq_color_sound t.bg u.bg e);
    reset_default = λ a. refl;
  }

  -- The first cell, from the end, that is not blank: how many cells there are up to it.
  unfoldable pub occupied : ℕ → List (Cell x) → ℕ
  occupied len [] = 0
  occupied len (cell ∷ cells) =
      let rest = occupied (len - 1) cells in
      if not (cell.c == space) || not (no_zerowidth cell.extra) then len else rest

  -- A row with no cell panics; here it has the length 0.
  unfoldable pub line_length : Row.Row (Cell x) → ℕ
  line_length self =
      let len = length self.inner in
      elim (get_elem? self.inner (len - 1)) [
        | none ↦ 0
        | some last ↦
            if contains last.flags Flags.wrapline then len else occupied len (reverse self.inner)
      ]
