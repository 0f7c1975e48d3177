-- ===== src/Prelude/Slices.antt =====
-- The list operations of Rust's vectors and slices: resizing, rotation and exchange.
use Prim.Native.Nat.{ℕ, zero, suc, ◌+◌, ◌-◌, ◌≤◌, ◌<◌}
use mathlib.Core.Path.{◌≡◌, refl, ap, ◌∙◌}
use mathlib.Core.Logic.{inl, inr, ◌≢◌}
use mathlib.Core.List.{List, [], ◌∷◌, ◌++◌}
use mathlib.Core.Bool.{true, false}
use mathlib.Core.Option.{Option, none, some}
use native.Mathlib.Omega.{arith}
use velacritty.Prelude.Tests.{ltb, ltb→lt, tests, ◌==◌, if◌then◌else◌, Bool-cases}
use velacritty.Prelude.Lists.{
  length, get_elem?, set, take, drop, replicate, length-set, length-append, length-drop,
  length-take, get_elem?-drop, get_elem?-take, get_elem?_congr, replicate_congr,
  get_elem?-append_left, get_elem?-append_right,
}

module _ {ℓ} {A : Type ℓ} where
  -- `Vec::resize_with`, with a value for the function that makes new elements.
  abbrev pub resize : ℕ → A → List A → List A
  resize zero a xs = []
  resize (suc n) a [] = a ∷ resize n a []
  resize (suc n) a (x ∷ xs) = x ∷ resize n a xs

  -- `slice::rotate_left`.
  abbrev pub rotate_left : ℕ → List A → List A
  rotate_left n xs = drop n xs ++ take n xs

  abbrev pub exchange : List A → ℕ → ℕ → Option A → Option A → List A
  exchange xs i j (some x) (some y) = set (set xs i y) j x
  exchange xs i j none o = xs
  exchange xs i j o none = xs

  -- `slice::swap`; an index out of range panics, and here changes nothing.
  abbrev pub swap : List A → ℕ → ℕ → List A
  swap xs i j = exchange xs i j (get_elem? xs i) (get_elem? xs j)

  pub length-resize : (n : ℕ) (a : A) (xs : List A) → length (resize n a xs) ≡ n
  length-resize zero a xs = refl
  length-resize (suc n) a [] = ap suc (length-resize n a [])
  length-resize (suc n) a (x ∷ xs) = ap suc (length-resize n a xs)

  pub resize_grow :
      (n : ℕ) (a : A) (xs : List A)
      → length xs ≤ n
      → resize n a xs ≡ xs ++ replicate (n - length xs) a
  resize_grow zero a [] h = refl
  resize_grow (suc n) a [] h =
      ap (λ r. a ∷ r) (resize_grow n a [] (omega arith))
      ∙ replicate_congr a {n = suc (n - 0)} {m = suc n - 0} (omega arith)
  resize_grow zero a (x ∷ xs) h = absurd (omega arith)
  resize_grow (suc n) a (x ∷ xs) h =
      ap (λ r. x ∷ r)
        (resize_grow n a xs (omega arith)
          ∙ ap (λ r. xs ++ r)
              (replicate_congr a {n = n - length xs} {m = suc n - suc (length xs)} (omega arith)))

  pub length-rotate_left : (n : ℕ) (xs : List A) → length (rotate_left n xs) ≡ length xs
  length-rotate_left n xs =
      omega (arith, length-append (drop n xs) (take n xs), length-drop n xs, length-take n xs)

  -- The element at `i` of a rotated list stands `n` further on, round the end.
  pub get_elem?-rotate_left :
      (n : ℕ) (xs : List A) (i : ℕ)
      → n ≤ length xs
      → i < length xs
      → get_elem? (rotate_left n xs) i
        ≡ get_elem? xs (if ltb (n + i) (length xs) then n + i else n + i - length xs)
  get_elem?-rotate_left n xs i hn hi = elim (Bool-cases (ltb (n + i) (length xs))) [
    | inl e ↦ rw e (
        get_elem?-append_left (drop n xs) (take n xs) i
          (omega (tests, ltb→lt (n + i) (length xs) e, length-drop n xs))
        ∙ get_elem?-drop n xs i)
    | inr e ↦
        let h : length xs ≤ n + i = ground arith in
        rw e (
          get_elem?_congr (rotate_left n xs) {n = i} {m = length (drop n xs) + (n + i - length xs)}
            (omega (arith, length-drop n xs))
          ∙ get_elem?-append_right (drop n xs) (take n xs) (n + i - length xs)
          ∙ get_elem?-take n xs (n + i - length xs) (omega arith))
  ]

  pub get_elem?-set :
      (xs : List A) (i j : ℕ) (v : A)
      → i < length xs
      → get_elem? (set xs i v) j ≡ (if i == j then some v else get_elem? xs j)
  get_elem?-set [] i j v h = absurd (omega arith)
  get_elem?-set (x ∷ xs) zero zero v h = refl
  get_elem?-set (x ∷ xs) zero (suc j) v h = ground arith
  get_elem?-set (x ∷ xs) (suc i) zero v h = ground arith
  get_elem?-set (x ∷ xs) (suc i) (suc j) v h = ground (arith, get_elem?-set xs i j v)

  pub get_elem?-some : (xs : List A) (i : ℕ) → i < length xs → (x : A) × (get_elem? xs i ≡ some x)
  get_elem?-some [] i h = absurd (omega arith)
  get_elem?-some (x ∷ xs) zero h = (x, refl)
  get_elem?-some (x ∷ xs) (suc i) h = get_elem?-some xs i (omega arith)

  pub get_elem?-swap :
      (xs : List A) (i j k : ℕ)
      → i < length xs
      → j < length xs
      → get_elem? (swap xs i j) k
        ≡ (if j == k then get_elem? xs i else if i == k then get_elem? xs j else get_elem? xs k)
  get_elem?-swap xs i j k hi hj =
      let (x, ex) = get_elem?-some xs i hi in
      let (y, ey) = get_elem?-some xs j hj in
      rw (ex, ey)
        (get_elem?-set (set xs i y) j k x (omega (arith, length-set xs i y))
          ∙ ap (λ o. if j == k then some x else o) (get_elem?-set xs i k y hi))

  length-exchange :
      (xs : List A) (i j : ℕ) (o p : Option A) → length (exchange xs i j o p) ≡ length xs
  length-exchange xs i j (some x) (some y) = length-set (set xs i y) j x ∙ length-set xs i y
  length-exchange xs i j none p = refl
  length-exchange xs i j (some x) none = refl

  pub length-swap : (xs : List A) (i j : ℕ) → length (swap xs i j) ≡ length xs
  length-swap xs i j = length-exchange xs i j (get_elem? xs i) (get_elem? xs j)

  pub get_elem?-swap_ne :
      (xs : List A) (i j k : ℕ)
      → i < length xs
      → j < length xs
      → k ≢ i
      → k ≢ j
      → get_elem? (swap xs i j) k ≡ get_elem? xs k
  get_elem?-swap_ne xs i j k hi hj ni nj =
      let a : (j == k) ≡ false = ground arith in
      let b : (i == k) ≡ false = ground arith in get_elem?-swap xs i j k hi hj ∙ rw (a, b)

  pub get_elem?-swap_snd :
      (xs : List A) (i j : ℕ)
      → i < length xs
      → j < length xs
      → get_elem? (swap xs i j) j ≡ get_elem? xs i
  get_elem?-swap_snd xs i j hi hj =
      let a : (j == j) ≡ true = ground arith in get_elem?-swap xs i j j hi hj ∙ rw a

  pub get_elem?-swap_fst :
      (xs : List A) (i j : ℕ)
      → i < length xs
      → j < length xs
      → get_elem? (swap xs i j) i ≡ get_elem? xs j
  get_elem?-swap_fst xs i j hi hj =
      let a : (i == i) ≡ true = ground arith in
      get_elem?-swap xs i j i hi hj ∙ elim (Bool-cases (j == i)) [
        | inl e ↦ rw e (get_elem?_congr xs {n = i} {m = j} (ground arith))
        | inr e ↦ rw (e, a)
      ]
