-- ===== src/Prelude/Shifts/Moves.antt =====
-- Where the elements are after `shift_right` and `shift_left`.
use velacritty.Prelude.{
  ℕ, zero, suc, ◌+◌, ◌≤◌, ◌<◌, ◌≡◌, List, arith, refl, ◌∙◌, length, get_elem?, swap,
  get_elem?-swap_fst, get_elem?-swap_ne, length-swap, get_elem?_congr, inl, inr, ◌⊎◌,
}
use velacritty.Prelude.Shifts.{shift_right, shift_left}

lt_or_eq : (i n : ℕ) → i < suc n → (i < n) ⊎ (i ≡ n)
lt_or_eq i n h = omega (arith, h)

module _ {ℓ} {A : Type ℓ} where
  pub length-shift_right :
      (n from to : ℕ) (xs : List A) → length (shift_right n from to xs) ≡ length xs
  unfolding shift_right
  length-shift_right zero from to xs = refl
  length-shift_right (suc n) from to xs =
      length-shift_right n from to (swap xs (to + n) (from + n))
      ∙ length-swap xs (to + n) (from + n)

  pub length-shift_left :
      (n from to : ℕ) (xs : List A) → length (shift_left n from to xs) ≡ length xs
  unfolding shift_left
  length-shift_left zero from to xs = refl
  length-shift_left (suc n) from to xs =
      length-shift_left n (from + 1) (to + 1) (swap xs to from) ∙ length-swap xs to from

  -- The places outside of those that are exchanged.
  pub shift_right_before :
      (n from to : ℕ) (xs : List A) (i : ℕ)
      → from ≤ to
      → to + n ≤ length xs
      → i < from
      → get_elem? (shift_right n from to xs) i ≡ get_elem? xs i
  unfolding shift_right
  shift_right_before zero from to xs i h k l = refl
  shift_right_before (suc n) from to xs i h k l =
      let ys = swap xs (to + n) (from + n) in
      shift_right_before n from to ys i h (omega (arith, k, length-swap xs (to + n) (from + n))) l
      ∙ get_elem?-swap_ne xs (to + n) (from + n) i (omega arith) (omega arith) (omega arith)
          (omega arith)

  shift_right_after :
      (n from to : ℕ) (xs : List A) (i : ℕ)
      → from ≤ to
      → to + n ≤ length xs
      → to + n ≤ i
      → get_elem? (shift_right n from to xs) i ≡ get_elem? xs i
  unfolding shift_right
  shift_right_after zero from to xs i h k l = refl
  shift_right_after (suc n) from to xs i h k l =
      let ys = swap xs (to + n) (from + n) in
      shift_right_after n from to ys i h (omega (arith, k, length-swap xs (to + n) (from + n)))
        (omega arith)
      ∙ get_elem?-swap_ne xs (to + n) (from + n) i (omega arith) (omega arith) (omega arith)
          (omega arith)

  -- The elements that are moved up.
  pub shift_right_moved :
      (n from to : ℕ) (xs : List A) (i : ℕ)
      → from ≤ to
      → to + n ≤ length xs
      → i < n
      → get_elem? (shift_right n from to xs) (to + i) ≡ get_elem? xs (from + i)
  unfolding shift_right
  shift_right_moved zero from to xs i h k l = absurd (omega (arith, l))
  shift_right_moved (suc n) from to xs i h k l =
      let ys = swap xs (to + n) (from + n) in
      let fits : to + n ≤ length ys = omega (arith, k, length-swap xs (to + n) (from + n)) in
      elim (lt_or_eq i n l) [
        | inl m ↦
            shift_right_moved n from to ys i h fits m
            ∙ get_elem?-swap_ne xs (to + n) (from + n) (from + i) (omega arith) (omega arith)
                (omega (arith, m, h)) (omega (arith, m))
        | inr e ↦ rw e (
            shift_right_after n from to ys (to + n) h fits (omega arith)
            ∙ get_elem?-swap_fst xs (to + n) (from + n) (omega arith) (omega arith))
      ]

  pub shift_left_before :
      (n from to : ℕ) (xs : List A) (i : ℕ)
      → to ≤ from
      → from + n ≤ length xs
      → i < to
      → get_elem? (shift_left n from to xs) i ≡ get_elem? xs i
  unfolding shift_left
  shift_left_before zero from to xs i h k l = refl
  shift_left_before (suc n) from to xs i h k l =
      shift_left_before n (from + 1) (to + 1) (swap xs to from) i (omega arith)
        (omega (arith, k, length-swap xs to from)) (omega arith)
      ∙ get_elem?-swap_ne xs to from i (omega arith) (omega arith) (omega arith) (omega arith)

  -- The elements that are moved down.
  pub shift_left_moved :
      (n from to : ℕ) (xs : List A) (i : ℕ)
      → to ≤ from
      → from + n ≤ length xs
      → i < n
      → get_elem? (shift_left n from to xs) (to + i) ≡ get_elem? xs (from + i)
  unfolding shift_left
  shift_left_moved zero from to xs i h k l = absurd (omega (arith, l))
  shift_left_moved (suc n) from to xs zero h k l =
      let ys = swap xs to from in
      get_elem?_congr (shift_left n (from + 1) (to + 1) ys) {n = to + zero} {m = to} (omega arith)
      ∙ shift_left_before n (from + 1) (to + 1) ys to (omega arith)
          (omega (arith, k, length-swap xs to from)) (omega arith)
      ∙ get_elem?-swap_fst xs to from (omega arith) (omega arith)
      ∙ get_elem?_congr xs {n = from} {m = from + zero} (omega arith)
  shift_left_moved (suc n) from to xs (suc i) h k l =
      let ys = swap xs to from in
      get_elem?_congr (shift_left n (from + 1) (to + 1) ys) {n = to + suc i} {m = to + 1 + i}
        (omega arith)
      ∙ shift_left_moved n (from + 1) (to + 1) ys i (omega arith)
          (omega (arith, k, length-swap xs to from)) (omega (arith, l))
      ∙ get_elem?-swap_ne xs to from (from + 1 + i) (omega arith) (omega arith) (omega arith)
          (omega arith)
      ∙ get_elem?_congr xs {n = from + 1 + i} {m = from + suc i} (omega arith)
