-- ===== src/Shortener/Fits.antt =====
-- What `StrShortener` yields of a text that fits.
use mathlib.Core.List.{reverse, append-nil}
use velacritty.Prelude.{
  length, sym, drop_congr, ◌-◌, ℕ, ◌+◌, ◌<◌, ◌≡◌, false, Option, none, some, List, [], ◌∷◌, refl,
  arith, ltb-false, lt→ltb, ◌==◌, Bool-cases, inl, inr, if◌then◌else◌, ◌∙◌, ap,
}
use velacritty.Shortener.{
  StrShortener, TextAction, ShortenDirection, scan, new_left, num_chars, new, next, next_char,
  char_width, left, right, spacer, char, is_empty,
}
use velacritty.Shortener.Left.{
  text_width, scan-append, scan_congr, length-reverse_aux, text_width-reverse_aux,
}

module _ {C : Type 0} (width : C → Option ℕ) (space : C) where
  -- The iterator yields the characters in their order, and then `none`.
  pub data Yields : StrShortener C → List C → Type 0 where
    done : (self : StrShortener C) → (next width space self).0 ≡ none → Yields self []
    more :
        (self rest : StrShortener C) (c : C) (later : List C)
        → next width space self ≡ (some c, rest)
        → Yields rest later
        → Yields self (c ∷ later)

  -- A text with a space after each wide character.
  abbrev pub spaced : List C → List C
  spaced [] = []
  spaced (c ∷ cs) =
      let rest = spaced cs in c ∷ (if char_width width c == 2 then space ∷ rest else rest)

  abbrev state : ShortenDirection → List C → ℕ → ℕ → Option C → TextAction → StrShortener C
  state dir chars len max sh action = record {
    chars = chars;
    accumulated_len = len;
    max_width = max;
    direction = dir;
    shortener_char = sh;
    text_action = action;
  }

  next-fits :
      (dir : ShortenDirection) (c : C) (cs : List C) (len max : ℕ) (sh : Option C)
      → len + char_width width c < max
      → next width space (state dir (c ∷ cs) len max sh char) ≡ (
        some c,
        state dir cs
            (len + char_width width c)
            max
            sh
            (if char_width width c == 2 then spacer else char),
      )
  unfolding next next_char
  next-fits dir c cs len max sh h =
      let e : (len + char_width width c == max) ≡ false = ground arith in
      elim (Bool-cases (char_width width c == 2)) [
        | inl t ↦ rw (ltb-false max (len + char_width width c) (omega (arith, h)), e, t) refl
        | inr t ↦ rw (ltb-false max (len + char_width width c) (omega (arith, h)), e, t) refl
      ]

  fits-Yields :
      (dir : ShortenDirection) (cs : List C) (len max : ℕ) (sh : Option C)
      → len + text_width width cs < max
      → Yields (state dir cs len max sh char) (spaced cs)
  unfolding next
  fits-Yields dir [] len max sh h = done _ refl
  fits-Yields dir (c ∷ cs) len max sh h =
      let w = char_width width c in
      let rest = fits-Yields dir cs (len + w) max sh (omega (arith, h)) in
      let e = next-fits dir c cs len max sh (omega (arith, h)) in
      elim (Bool-cases (w == 2)) [
        | inl t ↦ rw t (
            more _ (state dir cs (len + w) max sh spacer) c _
              (e ∙ ap (λ b. (some c, state dir cs (len + w) max sh (if b then spacer else char))) t)
              (more _ (state dir cs (len + w) max sh char) space _ refl rest))
        | inr t ↦ rw t (
            more _ (state dir cs (len + w) max sh char) c _
              (e ∙ ap (λ b. (some c, state dir cs (len + w) max sh (if b then spacer else char))) t)
              rest)
      ]

  -- Towards the start, the loop of `new` goes through a text that fits.
  scan-whole :
      (text : List C) (max : ℕ) (sh : Option C)
      → text_width width text < max
      → scan width max (reverse text) 0 0 0 sh ≡ record {
        iter = [];
        index = length text;
        offset = length text;
        current_len = text_width width text;
        shortener_char = sh;
      }
  unfolding scan
  scan-whole text max sh h =
      let n : 0 + length (reverse text) ≡ length text =
        omega (arith, length-reverse_aux width text []) in
      let w : 0 + text_width width (reverse text) ≡ text_width width text =
        omega (arith, text_width-reverse_aux width text []) in
      ap (λ t. scan width max t 0 0 0 sh) (sym (append-nil (reverse text)))
      ∙ scan-append width max (reverse text) [] 0 0 sh (omega (arith, h, w))
      ∙ scan_congr width max [] sh n w

  new_left-whole :
      (text : List C) (max : ℕ) (sh : Option C)
      → text_width width text < max
      → new_left width text max sh ≡ state left text 0 max sh char
  unfolding new_left num_chars
  new_left-whole text max sh h =
      rw (scan-whole text max sh h, lt→ltb (text_width width text) max h)
        (ap (λ t. state left t 0 max sh char)
          (drop_congr text {n = length text - length text} {m = 0} (omega arith)))

  -- A text that is narrower than the width given comes out whole, in both directions, with a space
  -- after each wide character and no shortener, and then the iterator ends.
  pub new-Yields :
      (text : List C) (max : ℕ) (direction : ShortenDirection) (sh : Option C)
      → text_width width text < max
      → Yields (new width text max direction sh) (spaced text)
  unfolding new
  new-Yields text max right sh h =
      fits-Yields right text 0 max (if is_empty text then none else sh) (omega (arith, h))
  new-Yields text max left sh h =
      let sh' = if is_empty text then none else sh in
      rw (new_left-whole text max sh' h) (fits-Yields left text 0 max sh' (omega (arith, h)))
