-- ===== src/Grid/Loops.antt =====
-- The loops of the grid over ranges of lines, as loops over positions in the view of the storage.
use mathlib.Core.List.{reverse, foldl, map, reverse-cons, map-append}
use velacritty.Prelude.{
  ℕ, zero, suc, ◌+◌, ◌-◌, ◌^◌, ◌≤◌, ◌<◌, ◌≡◌, refl, sym, ap, ◌∙◌, List, [], ◌∷◌, ◌++◌, arith, swap,
  subst,
}
use velacritty.Prelude.Int.{ℤ, pos, sub_ℕ, ◌+ℤ◌}
use velacritty.Prelude.Word.{i32_of, ◌+ᵢ◌, ◌-ᵢ◌}
use velacritty.Grid.Storage
use velacritty.Grid.Storage.Index.{IsValid}
use velacritty.Grid.Storage.View.{view, swap_lines-line_at}
use velacritty.Grid.Ranges.{lines_from}
use velacritty.Grid.SwapLoop.{exchange_up, exchange_down}
use velacritty.Grid.{swap_lines}

-- The line at a position of a screen of `v` lines.
abbrev pub line : ℕ → ℕ → ℤ
line v p = sub_ℕ v (suc p)

-- The positions `b + n - 1` down to `b`, and those from `b` up.
abbrev pub downwards : ℕ → ℕ → List ℕ
downwards b zero = []
downwards b (suc n) = (b + n) ∷ downwards b n

abbrev pub upwards : ℕ → ℕ → List ℕ
upwards b zero = []
upwards b (suc n) = b ∷ upwards (b + 1) n

upwards_snoc : (b n : ℕ) → upwards b n ++ (b + n) ∷ [] ≡ upwards b (suc n)
upwards_snoc b zero = ap (λ k. k ∷ []) (omega arith)
upwards_snoc b (suc n) =
    ap (λ r. b ∷ r)
      (ap (λ k. upwards (b + 1) n ++ k ∷ []) (let e : b + suc n ≡ b + 1 + n = omega arith in e)
        ∙ upwards_snoc (b + 1) n)

reverse-downwards : (b n : ℕ) → reverse (downwards b n) ≡ upwards b n
reverse-downwards b zero = refl
reverse-downwards b (suc n) =
    reverse-cons (b + n) (downwards b n)
    ∙ ap (λ r. r ++ (b + n) ∷ []) (reverse-downwards b n)
    ∙ upwards_snoc b n

reverse-map : (f : ℕ → ℤ) (l : List ℕ) → reverse (map f l) ≡ map f (reverse l)
reverse-map f [] = refl
reverse-map f (x ∷ l) =
    reverse-cons (f x) (map f l)
    ∙ ap (λ r. r ++ f x ∷ []) (reverse-map f l)
    ∙ sym (ap (map f) (reverse-cons x l) ∙ map-append f (reverse l) (x ∷ []))

next_line : (v m : ℕ) → sub_ℕ v (suc m) +ℤ pos 1 ≡ sub_ℕ v m
unfolding ◌+ℤ◌
next_line v m = ground arith

-- A range of lines goes down the screen.
pub lines_from-downwards :
    (v b n : ℕ) → lines_from (sub_ℕ v (b + n)) n ≡ map (line v) (downwards b n)
unfolding ◌+ℤ◌
lines_from-downwards v b zero = refl
lines_from-downwards v b (suc n) =
    let e : b + suc n ≡ suc (b + n) = omega arith in
    rw e (
      ap (λ r. line v (b + n) ∷ r)
        (ap (λ l. lines_from l n) (next_line v (b + n)) ∙ lines_from-downwards v b n))

-- The last `n` lines of a screen of `v` lines, from the bottom up.
pub bottom_lines :
    (v e n : ℕ) → e + n ≡ v → reverse (lines_from (pos e) n) ≡ map (line v) (upwards 0 n)
bottom_lines v e n h =
    let a : pos e ≡ sub_ℕ v (0 + n) = ground arith in
    rw a (
      ap reverse (lines_from-downwards v 0 n)
      ∙ reverse-map (line v) (downwards 0 n)
      ∙ ap (map (line v)) (reverse-downwards 0 n))

-- The `k` lines above line `e`.
pub lines_above :
    (v e k b : ℕ) → k ≤ e → b + e ≡ v → lines_from (pos (e - k)) k ≡ map (line v) (downwards b k)
lines_above v e k b h c =
    let a : pos (e - k) ≡ sub_ℕ v (b + k) = ground arith in rw a (lines_from-downwards v b k)

line_up : (v p k : ℕ) → v < 2 ^ 31 → suc (p + k) < 2 ^ 31 → line v p -ᵢ i32_of k ≡ line v (p + k)
unfolding ◌-ᵢ◌ i32_of
line_up v p k hv hp = ground arith

line_down : (v p k : ℕ) → v < 2 ^ 31 → suc (p + k) < 2 ^ 31 → line v (p + k) +ᵢ i32_of k ≡ line v p
unfolding ◌+ᵢ◌ i32_of
line_down v p k hv hp = ground arith

module _ {ℓ} {T : Type ℓ} where
  -- A well-formed storage with a screen of `v` lines, and `n` lines in use.
  pub record HasShape (v n : ℕ) (s : Storage.Storage T) : Type ℓ where
    pub valid : IsValid s
    pub visible : s.visible_lines ≡ v
    pub used : s.len ≡ n

  swap_step :
      {v n : ℕ} (s : Storage.Storage T) (p q : ℕ)
      → HasShape v n s
      → p < n
      → q < n
      → let s' = Storage.swap_lines s (line v p) (line v q) in
        HasShape v n s' × (view s' ≡ swap (view s) p q)
  unfolding Storage.swap_lines
  swap_step s p q h hp hq =
      let r = swap_lines-line_at s p q h.valid (omega (arith, h)) (omega (arith, h)) in
      rw (← h.visible) (record { valid = r.0; visible = refl; used = h.used }, r.1)

  pub swap_lines_up :
      {v n : ℕ} (p count k : ℕ) (s : Storage.Storage T)
      → HasShape v n s
      → p + count + k ≤ n
      → let s' = swap_lines (λ i. i -ᵢ i32_of k) (map (line v) (upwards p count)) s in
        HasShape v n s' × (view s' ≡ exchange_up p count k (view s))
  unfolding swap_lines exchange_up
  swap_lines_up p zero k s h b = (h, refl)
  swap_lines_up {v} {n} p (suc count) k s h b =
      let a = swap_step {v = v} {n = n} s p (p + k) h (omega arith) (omega arith) in
      let f = λ (s' : Storage.Storage T) (i : ℤ). Storage.swap_lines s' i (i -ᵢ i32_of k) in
      let e : f s (line v p) ≡ Storage.swap_lines s (line v p) (line v (p + k)) =
        ap (Storage.swap_lines s (line v p))
          (line_up v p k (omega (arith, h)) (omega (arith, h))) in
      let ih =
        swap_lines_up {v = v} {n = n} (p + 1) count k
          (Storage.swap_lines s (line v p) (line v (p + k))) a.0 (omega arith) in
      subst
        (λ s'.
          HasShape v n (foldl f s' (map (line v) (upwards (p + 1) count)))
          × (view (foldl f s' (map (line v) (upwards (p + 1) count)))
              ≡ exchange_up (p + 1) count k (swap (view s) p (p + k))))
        (sym e) (ih.0, ih.1 ∙ ap (exchange_up (p + 1) count k) a.1)

  pub swap_lines_down :
      {v n : ℕ} (p count k : ℕ) (s : Storage.Storage T)
      → HasShape v n s
      → p + count + k ≤ n
      → let s' = swap_lines (λ i. i +ᵢ i32_of k) (map (line v) (downwards (p + k) count)) s in
        HasShape v n s' × (view s' ≡ exchange_down p count k (view s))
  unfolding swap_lines exchange_down
  swap_lines_down p zero k s h b = (h, refl)
  swap_lines_down {v} {n} p (suc count) k s h b =
      let i = p + k + count in
      let i' = p + count + k in
      let c : i ≡ i' = omega arith in
      let j = p + count in
      let a = swap_step {v = v} {n = n} s i' j h (omega arith) (omega arith) in
      let f = λ (s' : Storage.Storage T) (l : ℤ). Storage.swap_lines s' l (l +ᵢ i32_of k) in
      let e : f s (line v i) ≡ Storage.swap_lines s (line v i') (line v j) = rw c (
        ap (Storage.swap_lines s (line v i'))
          (line_down v j k (omega (arith, h)) (omega (arith, h)))) in
      let ih =
        swap_lines_down {v = v} {n = n} p count k (Storage.swap_lines s (line v i') (line v j)) a.0
          (omega arith) in
      subst
        (λ s'.
          HasShape v n (foldl f s' (map (line v) (downwards (p + k) count)))
          × (view (foldl f s' (map (line v) (downwards (p + k) count)))
              ≡ exchange_down p count k (swap (view s) i' j)))
        (sym e) (ih.0, ih.1 ∙ ap (exchange_down p count k) a.1)
