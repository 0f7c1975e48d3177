-- ===== src/Prelude/Rings.antt =====
-- A window on a list that is read round its end: `n` elements from index `z` on.
use Prim.Native.Nat.{ℕ, ◌+◌, ◌-◌, ◌%◌, ◌≤◌, ◌<◌}
use mathlib.Core.Path.{◌≡◌, sym, ap, ◌∙◌}
use mathlib.Core.List.{List, ◌++◌, append-nil}
use native.Mathlib.Omega.{arith}
use native.Mathlib.Nat.{mod-eq_of_lt, mod-eq-sub-mod}
use native.Mathlib.Decide.{dec_lt}
use velacritty.Prelude.Tests.{ltb, ltb-false, lt→ltb, ◌==◌, if◌then◌else◌}
use velacritty.Prelude.Lists.{
  length, get_elem?, set, take, length-set, length-take, get_elem?-take, get_elem?-past,
  ext_get_elem?, length-append, get_elem?_congr, get_elem?-append_left, get_elem?-append_right,
  take-take,
}
use velacritty.Prelude.Slices.{
  rotate_left, swap, get_elem?-rotate_left, length-rotate_left, get_elem?-set, get_elem?-swap,
  length-swap,
}

-- The index in a list of length `l` of what stands `p` places after index `z`.
abbrev pub slot : ℕ → ℕ → ℕ → ℕ
slot z l p = if ltb (z + p) l then z + p else z + p - l

slot-lt : (z l p : ℕ) → z < l → p < l → slot z l p < l
slot-lt z l p hz hp = ground arith

slot-injective : (z l p q : ℕ) → z < l → p < l → q < l → (slot z l p == slot z l q) ≡ (p == q)
slot-injective z l p q hz hp hq = ground arith

-- A number that passes the end of the ring at most once.
pub mod_ring : (x l : ℕ) → x < l + l → x % l ≡ (if ltb x l then x else x - l)
mod_ring x l h = elim (dec_lt x l) [
  | yes p ↦ rw (lt→ltb x l p) (mod-eq_of_lt p)
  | no p ↦ rw (ltb-false x l (omega arith)) (
      omega (
        arith,
        mod-eq-sub-mod {n = x} {m = l} (omega arith),
        mod-eq_of_lt {n = x - l} {m = l} (omega arith),
      ))
]

module _ {ℓ} {A : Type ℓ} where
  abbrev pub window : ℕ → ℕ → List A → List A
  window z n xs = take n (rotate_left z xs)

  pub length-window : (z n : ℕ) (xs : List A) → n ≤ length xs → length (window z n xs) ≡ n
  length-window z n xs h = omega (arith, length-take n (rotate_left z xs), length-rotate_left z xs)

  pub get_elem?-window :
      (z n : ℕ) (xs : List A) (p : ℕ)
      → z < length xs
      → n ≤ length xs
      → p < n
      → get_elem? (window z n xs) p ≡ get_elem? xs (slot z (length xs) p)
  get_elem?-window z n xs p hz hn hp =
      get_elem?-take n (rotate_left z xs) p hp
      ∙ get_elem?-rotate_left z xs p (omega arith) (omega arith)

  -- A list that agrees with a window at its `n` indices is that window.
  pub window_ext :
      (z n : ℕ) (xs ys : List A)
      → z < length xs
      → n ≤ length xs
      → length ys ≡ n
      → ((p : ℕ) → p < n → get_elem? xs (slot z (length xs) p) ≡ get_elem? ys p)
      → window z n xs ≡ ys
  window_ext z n xs ys hz hn e h = ext_get_elem? (window z n xs) ys (λ p. elim (dec_lt p n) [
    | yes lt ↦ get_elem?-window z n xs p hz hn lt ∙ h p lt
    | no ge ↦
        get_elem?-past (window z n xs) p (omega (arith, length-window z n xs hn))
        ∙ sym (get_elem?-past ys p (omega arith))
  ])

  -- A write inside the window.
  pub window-set :
      (z n : ℕ) (xs : List A) (p : ℕ) (v : A)
      → z < length xs
      → n ≤ length xs
      → p < n
      → window z n (set xs (slot z (length xs) p) v) ≡ set (window z n xs) p v
  window-set z n xs p v hz hn hp =
      window_ext z n (set xs i v) (set (window z n xs) p v) (omega (arith, length-set xs i v))
        (omega (arith, length-set xs i v))
        (length-set (window z n xs) p v ∙ length-window z n xs hn)
        (λ q hq.
          rw
            (
              length-set xs i v,
              get_elem?-set xs i (slot z (length xs) q) v
                  (slot-lt z (length xs) p hz (omega arith)),
              slot-injective z (length xs) p q hz (omega arith) (omega arith),
              ← get_elem?-window z n xs q hz hn hq,
            )
            (sym (get_elem?-set (window z n xs) p q v (omega (arith, length-window z n xs hn)))))
    where
      i : ℕ
      i = slot z (length xs) p

  -- An exchange inside the window.
  pub window-swap :
      (z n : ℕ) (xs : List A) (p q : ℕ)
      → z < length xs
      → n ≤ length xs
      → p < n
      → q < n
      → window z n (swap xs (slot z (length xs) p) (slot z (length xs) q))
        ≡ swap (window z n xs) p q
  window-swap z n xs p q hz hn hp hq =
      window_ext z n (swap xs i j) (swap (window z n xs) p q) (omega (arith, length-swap xs i j))
        (omega (arith, length-swap xs i j))
        (length-swap (window z n xs) p q ∙ length-window z n xs hn)
        (λ k hk.
          rw
            (
              length-swap xs i j,
              get_elem?-swap xs i j (slot z (length xs) k)
                  (slot-lt z (length xs) p hz (omega arith))
                  (slot-lt z (length xs) q hz (omega arith)),
              slot-injective z (length xs) p k hz (omega arith) (omega arith),
              slot-injective z (length xs) q k hz (omega arith) (omega arith),
              ← get_elem?-window z n xs k hz hn hk,
              ← get_elem?-window z n xs p hz hn hp,
              ← get_elem?-window z n xs q hz hn hq,
            )
            (sym (
              get_elem?-swap (window z n xs) p q k (omega (arith, length-window z n xs hn))
                (omega (arith, length-window z n xs hn)))))
    where
      i : ℕ
      i = slot z (length xs) p

      j : ℕ
      j = slot z (length xs) q

  -- A window is its first `k` elements and the window that starts past them.
  pub window-split :
      (z z' n k : ℕ) (xs : List A)
      → z < length xs
      → n ≤ length xs
      → k ≤ n
      → z' ≡ slot z (length xs) k
      → window z n xs ≡ window z k xs ++ window z' (n - k) xs
  window-split z z' n k xs hz hn hk e =
      window_ext z n xs (window z k xs ++ window z' (n - k) xs) hz hn
        (omega (
          arith,
          length-append (window z k xs) (window z' (n - k) xs),
          length-window z k xs (omega arith),
          length-window z' (n - k) xs (omega arith),
        ))
        (λ p hp. elim (dec_lt p k) [
          | yes lt ↦
              sym (get_elem?-window z k xs p hz (omega arith) lt)
              ∙ sym (
                  get_elem?-append_left (window z k xs) (window z' (n - k) xs) p
                    (omega (arith, length-window z k xs (omega arith))))
          | no ge ↦
              get_elem?_congr xs {n = slot z (length xs) p} {m = slot z' (length xs) (p - k)}
                (ground (arith, e))
              ∙ sym (
                  get_elem?-window z' (n - k) xs (p - k) (ground (arith, e)) (omega arith)
                    (omega arith))
              ∙ sym (get_elem?-append_right (window z k xs) (window z' (n - k) xs) (p - k))
              ∙ get_elem?_congr (window z k xs ++ window z' (n - k) xs)
                  {n = length (window z k xs) + (p - k)} {m = p}
                  (omega (arith, length-window z k xs (omega arith)))
        ])

  pub window-take : (z n k : ℕ) (xs : List A) → k ≤ n → window z k xs ≡ take k (window z n xs)
  window-take z n k xs h = sym (take-take k n (rotate_left z xs) h)

  -- With no place to skip a window is a prefix.
  pub window-zero : (n : ℕ) (xs : List A) → window 0 n xs ≡ take n xs
  window-zero n xs = ap (take n) (append-nil xs)
