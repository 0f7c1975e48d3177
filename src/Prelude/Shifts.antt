-- ===== src/Prelude/Shifts.antt =====
-- Loops that move the elements of a slice, and that fill a part of it.
pub mod Moves
use velacritty.Prelude.{
  ℕ, zero, suc, ◌+◌, ◌-◌, ◌≤◌, ◌<◌, ◌≡◌, Bool, true, false, ◌&&◌, Option, none, some, List, [], ◌∷◌,
  arith, refl, ap, ◌∙◌, sym, ltb, leb, ◌==◌, if◌then◌else◌, length, get_elem?, swap, get_elem?-swap,
  get_elem?-swap_ne, length-swap, get_elem?_congr,
}

module _ {ℓ} {A : Type ℓ} where
  -- `for cell in &mut xs[start..end] { *cell = v }`; a range out of bounds panics.
  unfoldable pub fill : ℕ → ℕ → A → List A → List A
  fill start end v [] = []
  fill zero zero v (x ∷ xs) = x ∷ xs
  fill zero (suc end) v (x ∷ xs) = v ∷ fill zero end v xs
  fill (suc start) zero v (x ∷ xs) = x ∷ xs
  fill (suc start) (suc end) v (x ∷ xs) = x ∷ fill start end v xs

  -- `for offset in (0..n).rev() { xs.swap(to + offset, from + offset) }`.
  unfoldable pub shift_right : ℕ → ℕ → ℕ → List A → List A
  shift_right zero from to xs = xs
  shift_right (suc n) from to xs = shift_right n from to (swap xs (to + n) (from + n))

  -- `for offset in 0..n { xs.swap(to + offset, from + offset) }`.
  unfoldable pub shift_left : ℕ → ℕ → ℕ → List A → List A
  shift_left zero from to xs = xs
  shift_left (suc n) from to xs = shift_left n (from + 1) (to + 1) (swap xs to from)

  pub length-fill : (start end : ℕ) (v : A) (xs : List A) → length (fill start end v xs) ≡ length xs
  unfolding fill
  length-fill start end v [] = refl
  length-fill zero zero v (x ∷ xs) = refl
  length-fill zero (suc end) v (x ∷ xs) = ap suc (length-fill zero end v xs)
  length-fill (suc start) zero v (x ∷ xs) = refl
  length-fill (suc start) (suc end) v (x ∷ xs) = ap suc (length-fill start end v xs)

  pub get_elem?-fill_in :
      (start end : ℕ) (v : A) (xs : List A) (i : ℕ)
      → start ≤ i
      → i < end
      → i < length xs
      → get_elem? (fill start end v xs) i ≡ some v
  unfolding fill
  get_elem?-fill_in start end v [] i h k l = absurd (omega (arith, l))
  get_elem?-fill_in zero zero v (x ∷ xs) i h k l = absurd (omega (arith, k))
  get_elem?-fill_in zero (suc end) v (x ∷ xs) zero h k l = refl
  get_elem?-fill_in zero (suc end) v (x ∷ xs) (suc i) h k l =
      get_elem?-fill_in zero end v xs i (omega arith) (omega arith) (omega arith)
  get_elem?-fill_in (suc start) zero v (x ∷ xs) i h k l = absurd (omega (arith, k))
  get_elem?-fill_in (suc start) (suc end) v (x ∷ xs) zero h k l = absurd (omega (arith, h))
  get_elem?-fill_in (suc start) (suc end) v (x ∷ xs) (suc i) h k l =
      get_elem?-fill_in start end v xs i (omega arith) (omega arith) (omega arith)

  pub get_elem?-fill_before :
      (start end : ℕ) (v : A) (xs : List A) (i : ℕ)
      → i < start
      → get_elem? (fill start end v xs) i ≡ get_elem? xs i
  unfolding fill
  get_elem?-fill_before start end v [] i h = refl
  get_elem?-fill_before zero end v (x ∷ xs) i h = absurd (omega (arith, h))
  get_elem?-fill_before (suc start) zero v (x ∷ xs) i h = refl
  get_elem?-fill_before (suc start) (suc end) v (x ∷ xs) zero h = refl
  get_elem?-fill_before (suc start) (suc end) v (x ∷ xs) (suc i) h =
      get_elem?-fill_before start end v xs i (omega arith)

  pub get_elem?-fill_after :
      (start end : ℕ) (v : A) (xs : List A) (i : ℕ)
      → end ≤ i
      → get_elem? (fill start end v xs) i ≡ get_elem? xs i
  unfolding fill
  get_elem?-fill_after start end v [] i h = refl
  get_elem?-fill_after zero zero v (x ∷ xs) i h = refl
  get_elem?-fill_after zero (suc end) v (x ∷ xs) zero h = absurd (omega (arith, h))
  get_elem?-fill_after zero (suc end) v (x ∷ xs) (suc i) h =
      get_elem?-fill_after zero end v xs i (omega arith)
  get_elem?-fill_after (suc start) zero v (x ∷ xs) i h = refl
  get_elem?-fill_after (suc start) (suc end) v (x ∷ xs) zero h = absurd (omega (arith, h))
  get_elem?-fill_after (suc start) (suc end) v (x ∷ xs) (suc i) h =
      get_elem?-fill_after start end v xs i (omega arith)
