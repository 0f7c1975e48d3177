-- ===== src/Grid/SwapLoop.antt =====
-- What the loops of exchanges in `Grid::scroll_up` and `Grid::scroll_down` do to a list of rows.
use velacritty.Prelude.{
  ℕ, zero, suc, ◌+◌, ◌≤◌, ◌<◌, ◌≡◌, refl, ◌∙◌, List, arith, length, get_elem?, swap,
  get_elem?-swap_ne, get_elem?-swap_fst, length-swap, dec_lt, ◌≢◌,
}

module _ {ℓ} {A : Type ℓ} where
  -- Exchanges of `p` and `p + k`, of `p + 1` and `p + 1 + k`, and so on.
  unfoldable pub exchange_up : ℕ → ℕ → ℕ → List A → List A
  exchange_up p zero k xs = xs
  exchange_up p (suc n) k xs = exchange_up (p + 1) n k (swap xs p (p + k))

  -- Exchanges of `p + n - 1 + k` and `p + n - 1`, down to those of `p + k` and `p`.
  unfoldable pub exchange_down : ℕ → ℕ → ℕ → List A → List A
  exchange_down p zero k xs = xs
  exchange_down p (suc n) k xs = exchange_down p n k (swap xs (p + n + k) (p + n))

  -- The elements from `p + k` on move to `p`, `n` of them; those before `p` and those past them
  -- stay.
  pub record MovedDown (p n k : ℕ) (xs ys : List A) : Type ℓ where
    pub same_length : length ys ≡ length xs
    pub before : (q : ℕ) → q < p → get_elem? ys q ≡ get_elem? xs q
    pub moved : (q : ℕ) → p ≤ q → q < p + n → get_elem? ys q ≡ get_elem? xs (q + k)
    pub after : (q : ℕ) → p + n + k ≤ q → get_elem? ys q ≡ get_elem? xs q

  pub exchange_up-MovedDown :
      (p n k : ℕ) (xs : List A) → p + n + k ≤ length xs → MovedDown p n k xs (exchange_up p n k xs)
  unfolding exchange_up
  exchange_up-MovedDown p zero k xs h = record {
    same_length = refl;
    before = λ q _. refl;
    moved = λ q a b. absurd (omega arith);
    after = λ q _. refl;
  }
  exchange_up-MovedDown p (suc n) k xs h =
      let xs' = swap xs p (p + k) in
      let l = length-swap xs p (p + k) in
      let ih = exchange_up-MovedDown (p + 1) n k xs' (omega (arith, l, h)) in
      let at = λ (q : ℕ) (a : q ≢ p) (b : q ≢ p + k).
        get_elem?-swap_ne xs p (p + k) q (omega arith) (omega arith) a b in
      record {
        same_length = ih.same_length ∙ l;
        before = λ q a. ih.before q (omega arith) ∙ at q (omega arith) (omega arith);
        moved = λ q a b. elim (dec_lt p q) [
          | yes lt ↦ ih.moved q (omega arith) (omega arith) ∙ at (q + k) (omega arith) (omega arith)
          | no ge ↦
              let e : q ≡ p = omega arith in
              rw e (
                ih.before p (omega arith)
                ∙ get_elem?-swap_fst xs p (p + k) (omega arith) (omega arith))
        ];
        after = λ q a. ih.after q (omega arith) ∙ at q (omega arith) (omega arith);
      }

  -- The elements from `p` on move to `p + k`, `n` of them; those past them and those before `p`
  -- stay.
  pub record MovedUp (p n k : ℕ) (xs ys : List A) : Type ℓ where
    pub same_length : length ys ≡ length xs
    pub before : (q : ℕ) → q < p → get_elem? ys q ≡ get_elem? xs q
    pub moved : (q : ℕ) → p ≤ q → q < p + n → get_elem? ys (q + k) ≡ get_elem? xs q
    pub after : (q : ℕ) → p + n + k ≤ q → get_elem? ys q ≡ get_elem? xs q

  pub exchange_down-MovedUp :
      (p n k : ℕ) (xs : List A) → p + n + k ≤ length xs → MovedUp p n k xs (exchange_down p n k xs)
  unfolding exchange_down
  exchange_down-MovedUp p zero k xs h = record {
    same_length = refl;
    before = λ q _. refl;
    moved = λ q a b. absurd (omega arith);
    after = λ q _. refl;
  }
  exchange_down-MovedUp p (suc n) k xs h =
      let i = p + n + k in
      let j = p + n in
      let xs' = swap xs i j in
      let l = length-swap xs i j in
      let ih = exchange_down-MovedUp p n k xs' (omega (arith, l, h)) in
      let at = λ (q : ℕ) (a : q ≢ i) (b : q ≢ j).
        get_elem?-swap_ne xs i j q (omega arith) (omega arith) a b in
      record {
        same_length = ih.same_length ∙ l;
        before = λ q a. ih.before q a ∙ at q (omega arith) (omega arith);
        moved = λ q a b. elim (dec_lt q (p + n)) [
          | yes lt ↦ ih.moved q a lt ∙ at q (omega arith) (omega arith)
          | no ge ↦
              let e : q ≡ p + n = omega arith in
              rw e (
                ih.after (p + n + k) (omega arith)
                ∙ get_elem?-swap_fst xs i j (omega arith) (omega arith))
        ];
        after = λ q a. ih.after q (omega arith) ∙ at q (omega arith) (omega arith);
      }
