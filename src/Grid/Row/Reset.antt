-- ===== src/Grid/Row/Reset.antt =====
-- `Row::reset` goes through the dirty cells only; it leaves the row as a reset of every cell would,
-- as long as the cells past `occ` are those of one reset. `Row::grow` does not keep that.
use velacritty.Prelude.{
  ℕ, zero, suc, ◌+◌, ◌-◌, ◌≤◌, ◌<◌, ◌≡◌, refl, sym, ap, ◌∙◌, inl, inr, true, some, List, [], ◌∷◌,
  ◌++◌, arith, leb-false, get_elem?-append_right, Bool-cases, dec_lt, length, get_elem?, drop,
  replicate, if◌then◌else◌, max, length-set, length-append, length-replicate,
}
use velacritty.Prelude.{
  drop-set_lt, drop-replicate, replicate_congr, drop_congr, get_elem?_congr, get_elem?-drop,
  drop-all, drop-drop, get_elem?-replicate,
}
use velacritty.Grid.Cell.{GridCell, IsLawful}
use velacritty.Grid.Row.{Row, map_prefix, index_mut, new, grow, dirty, reset}

module _ {ℓ} {T : Type ℓ} where
  map_prefix-const :
      (n : ℕ) (f : T → T) (xs : List T) (b : T)
      → ((x : T) → f x ≡ b)
      → n ≤ length xs
      → drop n xs ≡ replicate (length xs - n) b
      → map_prefix n f xs ≡ replicate (length xs) b
  unfolding map_prefix
  map_prefix-const zero f xs b c h e = e ∙ replicate_congr b {n = length xs - 0} (omega arith)
  map_prefix-const (suc n) f [] b c h e = absurd (omega arith)
  map_prefix-const (suc n) f (x ∷ xs) b c h e = cc (
    c x,
    map_prefix-const n f xs b c (omega arith)
        (e ∙ replicate_congr b {n = suc (length xs) - suc n} (omega arith)),
  )

  last_of_tail :
      (n : ℕ) (xs : List T) (c : T)
      → n < length xs
      → drop n xs ≡ replicate (length xs - n) c
      → get_elem? xs (length xs - 1) ≡ some c
  last_of_tail n xs c h e =
      get_elem?_congr xs {n = length xs - 1} {m = n + (length xs - 1 - n)} (omega arith)
      ∙ sym (get_elem?-drop n xs (length xs - 1 - n))
      ∙ rw e (get_elem?-replicate (length xs - n) (length xs - 1 - n) c (omega arith))

  tail_later :
      (xs : List T) (n m : ℕ) (a : T)
      → n ≤ m
      → drop n xs ≡ replicate (length xs - n) a
      → drop m xs ≡ replicate (length xs - m) a
  tail_later xs n m a h e =
      drop_congr xs {n = m} {m = n + (m - n)} (omega arith)
      ∙ sym (drop-drop (m - n) n xs)
      ∙ ap (drop (m - n)) e
      ∙ drop-replicate (m - n) (length xs - n) a
      ∙ replicate_congr a {n = length xs - n - (m - n)} {m = length xs - m} (omega arith)

  tail-all : (xs : List T) (a : T) → drop (length xs) xs ≡ replicate (length xs - length xs) a
  tail-all xs a =
      drop-all (length xs) xs (omega arith)
      ∙ replicate_congr a {n = 0} {m = length xs - length xs} (omega arith)

module _ {ℓ} {T : Type ℓ} ⦃g : GridCell T⦄ where
  -- The cells past `occ` are as a reset by `t` leaves them.
  pub record IsClean (t : T) (row : Row T) : Type ℓ where
    pub occ_in : row.occ ≤ length row.inner
    pub tail : drop row.occ row.inner ≡ replicate (length row.inner - row.occ) (g.reset g.default t)

  pub IsClean-new : IsLawful g → (columns : ℕ) → IsClean g.default (new columns)
  unfolding new
  IsClean-new l columns = record {
    occ_in = omega arith;
    tail =
        rw (l.reset_default g.default)
          (replicate_congr g.default (omega (arith, length-replicate columns g.default)));
  }

  -- A write through `row[column]` keeps the row clean.
  pub IsClean-index_mut :
      {t : T} {row : Row T} (column : ℕ) (cell : T)
      → column < length row.inner
      → IsClean t row
      → IsClean t (index_mut row column cell)
  unfolding index_mut
  IsClean-index_mut {t} {row} column cell h c = record {
    occ_in = omega (arith, length-set row.inner column cell, c.occ_in);
    tail =
        drop-set_lt (max row.occ (column + 1)) column row.inner cell (omega arith)
        ∙ tail_later row.inner row.occ (max row.occ (column + 1)) (g.reset g.default t)
            (omega arith) c.tail
        ∙ replicate_congr (g.reset g.default t) {n = length row.inner - max row.occ (column + 1)}
            (omega (arith, length-set row.inner column cell));
  }

  dirty_last :
      (row : Row T) (u last : T)
      → get_elem? row.inner (length row.inner - 1) ≡ some last
      → dirty row u ≡ (if g.same_discriminant last u then row.occ else length row.inner)
  unfolding dirty
  dirty_last row u last e = rw (e, dirty)

  dirty-full : (row : Row T) (u : T) → row.occ ≡ length row.inner → dirty row u ≡ length row.inner
  unfolding dirty
  dirty-full row u e = ground arith

  -- What `reset` does not go through is already as it should be.
  clean_rest :
      IsLawful g
      → {t : T} {row : Row T} (u : T) → IsClean t row
      → 0 < length row.inner
      → (dirty row u ≤ length row.inner)
        × (drop (dirty row u) row.inner
            ≡ replicate (length row.inner - dirty row u) (g.reset g.default u))
  clean_rest l {t} {row} u c h = elim (dec_lt row.occ (length row.inner)) [
    | yes p ↦
        rw
          (dirty_last row u (g.reset g.default t)
            (last_of_tail row.occ row.inner (g.reset g.default t) p c.tail))
          (elim (Bool-cases (g.same_discriminant (g.reset g.default t) u)) [
            | inl s ↦ rw s (c.occ_in, rw (← l.reset_same g.default t u s) c.tail)
            | inr s ↦ rw s (omega arith, tail-all row.inner (g.reset g.default u))
          ])
    | no p ↦
        rw (dirty-full row u (omega (arith, c.occ_in)))
          (omega arith, tail-all row.inner (g.reset g.default u))
  ]

  -- After a reset the row is as long as before, every cell is as a reset by the template leaves
  -- it, and no cell is dirty, although only the dirty cells were gone through.
  pub reset_lem :
      IsLawful g
      → {t : T} {row : Row T} (u : T) → IsClean t row
      → 0 < length row.inner
      → reset row u ≡ record { inner = replicate (length row.inner) (g.reset g.default u); occ = 0 }
  unfolding reset
  reset_lem l {t} {row} u c h =
      let r = clean_rest l {t = t} {row = row} u c h in
      ap (λ cells. record { inner = cells; occ = 0 })
        (map_prefix-const (dirty row u) (λ x. g.reset x u) row.inner (g.reset g.default u)
          (λ x. l.reset_any x g.default u) r.0 r.1)

  -- A row that was reset is clean again, for the template that reset it.
  pub IsClean-reset :
      IsLawful g
      → {t : T} {row : Row T} (u : T) → IsClean t row
      → 0 < length row.inner
      → IsClean u (reset row u)
  IsClean-reset l {t} {row} u c h = rw (reset_lem l {t = t} {row = row} u c h) (record {
    occ_in = omega arith;
    tail =
        replicate_congr (g.reset g.default u)
          (omega (arith, length-replicate (length row.inner) (g.reset g.default u)));
  })

  -- A row with no dirty cell that grows, and is then reset by a template that compares equal to the
  -- default cell, keeps every cell that it had: none of them is reset, whatever they show.
  pub reset-grow_keeps :
      (row : Row T) (columns : ℕ) (u : T)
      → row.occ ≡ 0
      → length row.inner < columns
      → g.same_discriminant g.default u ≡ true
      → (reset (grow row columns) u).inner
        ≡ row.inner ++ replicate (columns - length row.inner) g.default
  unfolding reset grow
  reset-grow_keeps row columns u o h s =
      let cells = row.inner ++ replicate (columns - length row.inner) g.default in
      let e : length cells - 1 ≡ length row.inner + (columns - length row.inner - 1) = omega (
        arith,
        length-append row.inner (replicate (columns - length row.inner) g.default),
        length-replicate (columns - length row.inner) g.default,
      ) in
      let last : get_elem? cells (length cells - 1) ≡ some g.default =
        get_elem?_congr cells e
        ∙ get_elem?-append_right row.inner (replicate (columns - length row.inner) g.default)
            (columns - length row.inner - 1)
        ∙ get_elem?-replicate (columns - length row.inner) (columns - length row.inner - 1)
            g.default (omega arith) in
      rw
        (
          leb-false columns (length row.inner) h,
          dirty_last (record row { inner = cells }) u g.default last,
          s,
          o,
        )
        (unfold map_prefix in refl)
