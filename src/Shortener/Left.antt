-- ===== src/Shortener/Left.antt =====
-- `StrShortener::new` towards the start of the text.
use Prim.Native.Nat.{compare, Ordering}
use mathlib.Core.List.{reverse, reverse_aux, reverse_aux-eq}
use velacritty.Prelude.{
  ℕ, zero, suc, drop, ◌+◌, ◌-◌, ◌≤◌, ◌<◌, ◌≡◌, true, false, Option, some, List, [], ◌∷◌, ◌++◌,
  length, refl, ap, ◌∙◌, arith, ltb, ◌⊎◌, inl, inr, ltb-false, ltb→lt, ltb→le, Bool-cases,
  drop_congr,
}
use velacritty.Shortener.{
  StrShortener, scan, new, new_left, num_chars, char_width, left, shortener, is_some, is_empty,
}

module _ {C : Type 0} (width : C → Option ℕ) where
  -- The width of a text.
  abbrev pub text_width : List C → ℕ
  text_width [] = 0
  text_width (c ∷ cs) = char_width width c + text_width cs

  pub scan_congr :
      (max : ℕ) (ys : List C) (sh : Option C) {i j : ℕ} (e : i ≡ j) {l m : ℕ} (f : l ≡ m)
      → scan width max ys i i l sh ≡ scan width max ys j j m sh
  scan_congr max ys sh e f = cc (e, f)

  scan-fits :
      (max : ℕ) (x : C) (ys : List C) (index offset len : ℕ) (sh : Option C)
      → len + char_width width x < max
      → scan width max (x ∷ ys) index offset len sh
        ≡ scan width max ys (index + 1) (index + 1) (len + char_width width x) sh
  unfolding scan
  scan-fits max x ys index offset len sh h =
      let e : compare (len + char_width width x) max ≡ Ordering.lt = ground arith in
      rw (scan, e) refl

  -- The loop stops past the width, and at the width when a shortener has to go in.
  scan-stops :
      (max : ℕ) (x : C) (ys : List C) (index offset len : ℕ) (sh : Option C)
      → (max < len + char_width width x)
        ⊎ ((max ≡ len + char_width width x) × (is_some sh ≡ true) × (is_empty ys ≡ false))
      → scan width max (x ∷ ys) index offset len sh ≡ record {
        iter = ys;
        index = index + 1;
        offset = offset;
        current_len = len + char_width width x;
        shortener_char = sh;
      }
  unfolding scan
  scan-stops max x ys index offset len sh (inl h) =
      let e : compare (len + char_width width x) max ≡ Ordering.gt = ground arith in
      rw (scan, e) refl
  scan-stops max x ys index offset len sh (inr (h, s, n)) =
      let e : compare (len + char_width width x) max ≡ Ordering.eq = ground arith in
      rw (scan, e, s, n) refl

  -- Characters that fit are gone through, and the offset follows the index.
  pub scan-append :
      (max : ℕ) (xs ys : List C) (index len : ℕ) (sh : Option C)
      → len + text_width xs < max
      → scan width max (xs ++ ys) index index len sh
        ≡ scan width max ys (index + length xs) (index + length xs) (len + text_width xs) sh
  scan-append max [] ys index len sh h =
      scan_congr max ys sh {i = index} {j = index + 0} (omega arith) {l = len} {m = len + 0}
        (omega arith)
  scan-append max (x ∷ xs) ys index len sh h =
      scan-fits max x (xs ++ ys) index index len sh (omega (arith, h))
      ∙ scan-append max xs ys (index + 1) (len + char_width width x) sh (omega (arith, h))
      ∙ scan_congr max ys sh {i = index + 1 + length xs} {j = index + suc (length xs)} (omega arith)
          {l = len + char_width width x + text_width xs}
          {m = len + (char_width width x + text_width xs)} (omega arith)

  reverse_aux-split :
      (pre ys r : List C) → reverse_aux (pre ++ ys) r ≡ reverse_aux ys (reverse_aux pre r)
  reverse_aux-split [] ys r = refl
  reverse_aux-split (x ∷ pre) ys r = reverse_aux-split pre ys (x ∷ r)

  pub length-reverse_aux : (xs r : List C) → length (reverse_aux xs r) ≡ length xs + length r
  length-reverse_aux [] r = omega arith
  length-reverse_aux (x ∷ xs) r = omega (arith, length-reverse_aux xs (x ∷ r))

  pub text_width-reverse_aux :
      (xs r : List C) → text_width (reverse_aux xs r) ≡ text_width xs + text_width r
  text_width-reverse_aux [] r = omega arith
  text_width-reverse_aux (x ∷ xs) r = omega (arith, text_width-reverse_aux xs (x ∷ r))

  -- What the loop ends with when the text past `c` fits and `c` stops it.
  scan-cut :
      (max : ℕ) (pre : List C) (c : C) (cs : List C) (sh : Option C)
      → text_width cs < max
      → (max < text_width cs + char_width width c)
        ⊎ ((max ≡ text_width cs + char_width width c)
            × (is_some sh ≡ true)
            × (is_empty (reverse pre) ≡ false))
      → scan width max (reverse (pre ++ (c ∷ cs))) 0 0 0 sh ≡ record {
        iter = reverse pre;
        index = length cs + 1;
        offset = length cs;
        current_len = text_width cs + char_width width c;
        shortener_char = sh;
      }
  scan-cut max pre c cs sh h stop =
      let n : 0 + length (reverse cs) ≡ length cs = omega (arith, length-reverse_aux cs []) in
      let w : 0 + text_width (reverse cs) ≡ text_width cs =
        omega (arith, text_width-reverse_aux cs []) in
      ap (λ t. scan width max t 0 0 0 sh)
        (reverse_aux-split pre (c ∷ cs) [] ∙ reverse_aux-eq cs (c ∷ reverse pre))
      ∙ scan-append max (reverse cs) (c ∷ reverse pre) 0 0 sh (omega (arith, h, w))
      ∙ scan_congr max (c ∷ reverse pre) sh n w
      ∙ scan-stops max c (reverse pre) (length cs) (length cs) (text_width cs) sh stop

  num_chars-rest :
      (iter : List C) (index offset len : ℕ) (sh : Option C)
      → is_empty iter ≡ false
      → num_chars width (record {
        iter = iter;
        index = index;
        offset = offset;
        current_len = len;
        shortener_char = sh;
      })
        ≡ index + length iter
  unfolding num_chars
  num_chars-rest [] index offset len sh h = absurd (cc h)
  num_chars-rest (x ∷ xs) index offset len sh h = refl

  drop-prefix :
      (n : ℕ) (pre : List C) (c : C) (cs : List C)
      → n ≡ length pre + 1
      → drop n (pre ++ (c ∷ cs)) ≡ cs
  drop-prefix zero pre c cs h = absurd (omega (arith, h))
  drop-prefix (suc zero) [] c cs h = refl
  drop-prefix (suc (suc n)) [] c cs h = absurd (omega (arith, h))
  drop-prefix (suc n) (x ∷ pre) c cs h = drop-prefix n pre c cs (omega (arith, h))

  is_empty-length : (xs : List C) → 0 < length xs → is_empty xs ≡ false
  is_empty-length [] h = absurd (omega (arith, h))
  is_empty-length (x ∷ xs) h = refl

  stops :
      (ys : List C) (max len : ℕ)
      → max ≤ len
      → is_empty ys ≡ false
      → (max < len) ⊎ ((max ≡ len) × (true ≡ true) × (is_empty ys ≡ false))
  stops ys max len h e = elim (Bool-cases (ltb max len)) [
    | inl t ↦ inl (ltb→lt max len t)
    | inr t ↦ inr (omega (arith, h, ltb→le max len t), refl, e)
  ]

  -- The iterator that yields the shortener first.
  abbrev pub shortened : ℕ → C → List C → StrShortener C
  shortened max s chars = record {
    chars = chars;
    accumulated_len = 0;
    max_width = max;
    direction = left;
    shortener_char = some s;
    text_action = shortener;
  }

  -- Towards the start, a text is cut after a character that does not leave room for the shortener
  -- and has others before it: the iterator begins with the shortener and goes on with the rest.
  pub new-cut :
      (max : ℕ) (first : C) (pre : List C) (c : C) (cs : List C) (s : C)
      → text_width cs < max
      → max ≤ text_width cs + char_width width c
      → new width (first ∷ (pre ++ (c ∷ cs))) max left (some s) ≡ shortened max s cs
  unfolding new new_left
  new-cut max first pre c cs s h k =
      let whole = first ∷ pre in
      let count : length (reverse whole) ≡ length whole =
        omega (arith, length-reverse_aux whole []) in
      let more : is_empty (reverse whole) ≡ false =
        is_empty-length (reverse whole) (omega (arith, count)) in
      let cut = scan-cut max whole c cs (some s) h (stops (reverse whole) max _ k more) in
      let counted =
        num_chars-rest (reverse whole) (length cs + 1) (length cs)
          (text_width cs + char_width width c) (some s) more in
      rw (cut, ltb-false (text_width cs + char_width width c) max k)
        (ap (shortened max s) (drop-prefix _ whole c cs (omega (arith, counted, count))))

  -- A first character that is too wide for the room left by the others is not skipped: the text is
  -- kept whole behind the shortener, although it is wider than the width given.
  pub new-too_wide :
      (max : ℕ) (c : C) (cs : List C) (s : C)
      → text_width cs < max
      → max < text_width cs + char_width width c
      → new width (c ∷ cs) max left (some s) ≡ shortened max s (c ∷ cs)
  unfolding new new_left num_chars
  new-too_wide max c cs s h k =
      rw
        (
          scan-cut max [] c cs (some s) h (inl k),
          ltb-false (text_width cs + char_width width c) max (omega (arith, k)),
        )
        (ap (shortened max s)
          (drop_congr (c ∷ cs) {n = length cs - length cs} {m = 0} (omega arith)))
