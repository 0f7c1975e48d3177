-- ===== src/Tests/Shorteners.antt =====
use velacritty.Prelude.{ℕ, ◌≡◌, Option, some, [], ◌∷◌, ltb, if◌then◌else◌, arith, refl}
use velacritty.Shortener.{new, next, left, scan, new_left, num_chars, char_width}
use velacritty.Shortener.Left.{shortened, new-cut, new-too_wide}
use velacritty.Shortener.Fits.{Yields, new-Yields}

-- Characters from 128 on are wide, and 46 is the shortener.
abbrev wide : ℕ → Option ℕ
wide c = if ltb c 128 then some 1 else some 2

-- "ちはP" cut to two columns towards the start begins with the shortener.
first_runs : (next wide 32 (new wide (200 ∷ 201 ∷ 80 ∷ []) 2 left (some 46))).0 ≡ some 46
unfolding next new new_left scan num_chars char_width
first_runs = refl

new-cut_example : new wide (200 ∷ 201 ∷ 80 ∷ []) 2 left (some 46) ≡ shortened wide 2 46 (80 ∷ [])
unfolding char_width
new-cut_example = new-cut wide 2 200 [] 201 (80 ∷ []) 46 (omega arith) (omega arith)

-- "はP" is three columns wide, and both of its characters are kept.
new-too_wide_example :
    new wide (201 ∷ 80 ∷ []) 2 left (some 46) ≡ shortened wide 2 46 (201 ∷ 80 ∷ [])
unfolding char_width
new-too_wide_example = new-too_wide wide 2 201 (80 ∷ []) 46 (omega arith) (omega arith)

-- "はP" in five columns, towards the start.
new-Yields_example : Yields wide 32 (new wide (201 ∷ 80 ∷ []) 5 left (some 46)) (201 ∷ 32 ∷ 80 ∷ [])
unfolding char_width
new-Yields_example = new-Yields wide 32 (201 ∷ 80 ∷ []) 5 left (some 46) (omega arith)
