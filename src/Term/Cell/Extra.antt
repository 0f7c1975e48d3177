-- ===== src/Term/Cell/Extra.antt =====
-- The extra storage of a cell, which is dropped when it has nothing left.
use velacritty.Prelude.{ℕ, ◌≡◌, Option, none, some, List, [], arith}
use velacritty.Term.External.{External}
use velacritty.Term.Cell.{
  Cell, Hyperlink, set_hyperlink, hyperlink, underline_color, set_underline_color, zerowidth,
  drops_hyperlink, drops_color,
}

module _ {x : External} where
  -- The zero-width characters of a cell, none when it has no extra storage.
  abbrev pub marks : Cell x → List ℕ
  marks self = elim (zerowidth self) [ none ↦ [] | some cs ↦ cs ]

  -- `set_hyperlink` sets the hyperlink, and keeps the underline colour and the zero-width
  -- characters, whether or not it drops or makes the extra storage; `set_underline_color` sets the
  -- colour, and keeps the hyperlink and those characters.
  pub hyperlink-set_hyperlink :
      (self : Cell x) (link : Option (Hyperlink x)) (color : Option x.Color)
      → (hyperlink (set_hyperlink self link) ≡ link)
        × (underline_color (set_hyperlink self link) ≡ underline_color self)
        × (marks (set_hyperlink self link) ≡ marks self)
        × (underline_color (set_underline_color self color) ≡ color)
        × (hyperlink (set_underline_color self color) ≡ hyperlink self)
        × (marks (set_underline_color self color) ≡ marks self)
  unfolding hyperlink set_hyperlink underline_color set_underline_color zerowidth drops_hyperlink
      drops_color
  hyperlink-set_hyperlink self link color = ground arith
