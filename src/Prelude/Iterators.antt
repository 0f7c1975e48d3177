-- ===== src/Prelude/Iterators.antt =====
-- Methods of Rust's iterators and of `VecDeque`, on lists.
use velacritty.Prelude.{
  ℕ, zero, suc, Bool, false, ◌||◌, Option, none, some, List, [], ◌∷◌, if◌then◌else◌,
}

-- `Iterator::position`.
abbrev pub position {ℓ} : {A : Type ℓ} → (A → Bool) → List A → Option ℕ
position p [] = none
position p (x ∷ xs) =
    let rest = position p xs in
    if p x then some 0 else elim rest [ none ↦ none | some i ↦ some (suc i) ]

abbrev pub unwrap_or {ℓ} : {A : Type ℓ} → Option A → A → A
unwrap_or none d = d
unwrap_or (some a) d = a

-- `VecDeque::insert`, which panics past the end.
abbrev pub insert_at {ℓ} : {A : Type ℓ} → ℕ → A → List A → List A
insert_at zero a xs = a ∷ xs
insert_at (suc i) a [] = []
insert_at (suc i) a (x ∷ xs) = x ∷ insert_at i a xs

-- `VecDeque::remove`: the element and the rest.
abbrev pub remove_at {ℓ} : {A : Type ℓ} → ℕ → List A → Option A × List A
remove_at i [] = (none, [])
remove_at zero (x ∷ xs) = (some x, xs)
remove_at (suc i) (x ∷ xs) = let (found, rest) = remove_at i xs in (found, x ∷ rest)

-- `retain`.
abbrev pub filter {ℓ} : {A : Type ℓ} → (A → Bool) → List A → List A
filter p [] = []
filter p (x ∷ xs) = let rest = filter p xs in if p x then x ∷ rest else rest

abbrev pub any {ℓ} : {A : Type ℓ} → (A → Bool) → List A → Bool
any p [] = false
any p (x ∷ xs) = p x || any p xs
