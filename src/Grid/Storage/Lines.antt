-- ===== src/Grid/Storage/Lines.antt =====
-- How the operations that change the number of lines, or turn the ring, act on the rows in use.
use velacritty.Prelude.{
  ℕ, ◌+◌, ◌-◌, ◌%◌, ◌^◌, ◌≤◌, ◌<◌, ◌≡◌, refl, sym, ap, ◌∙◌, inl, inr, ◌⊎◌, List, ◌++◌, arith, max,
  length, take, drop, replicate, resize, ltb, ◌==◌, if◌then◌else◌, Bool-cases, length-replicate,
  length-rotate_left, length-resize, resize_grow, take-append, drop-append, drop-all, take-take,
  take-all,
}
use velacritty.Prelude.Int.{pos, ◌+ℤ◌, ◌-ℤ◌}
use velacritty.Prelude.Word.{usize_of, usize_add, usize_sub}
use velacritty.Prelude.Rings.{
  mod_ring, slot, window, window-zero, window-take, window-split, length-window,
}
use velacritty.Grid.Cell.{GridCell}
use velacritty.Grid.Row
use velacritty.Grid.Row.{Row}
use velacritty.Grid.Storage.{
  Storage, max_cache_size, rezero, truncate, shrink_lines, rotate, rotate_down, replace_inner,
  take_all, with_capacity, reserve, initialize,
}
use velacritty.Grid.Storage.Index.{IsValid}
use velacritty.Grid.Storage.View.{view}

module _ {ℓ} {T : Type ℓ} where
  -- `rezero` moves the rows, and changes nothing that is seen.
  rezero_lem :
      (s : Storage T)
      → IsValid s
      → let s' = rezero s in
        ((n : ℕ) → take n s'.inner ≡ window s.zero n s.inner)
        × (s'.zero ≡ 0)
        × (s'.len ≡ s.len)
        × (s'.visible_lines ≡ s.visible_lines)
        × (length s'.inner ≡ length s.inner)
  unfolding rezero
  rezero_lem s v = elim (Bool-cases (s.zero == 0)) [
    | inl e ↦
        let z : s.zero ≡ 0 = ground arith in
        rw e ((λ n. rw z (sym (window-zero n s.inner))), z, refl, refl, refl)
    | inr e ↦ rw e ((λ n. refl), refl, refl, refl, length-rotate_left s.zero s.inner)
  ]

  truncate_shape :
      (s : Storage T)
      → IsValid s
      → ((truncate s).len ≡ s.len) × ((truncate s).visible_lines ≡ s.visible_lines)
  unfolding truncate
  truncate_shape s v = let r = rezero_lem s v in (r.2, r.3)

  -- `truncate` keeps the rows in use, and stores no others.
  pub truncate_lem :
      (s : Storage T)
      → IsValid s
      → IsValid (truncate s) × (view (truncate s) ≡ view s) × ((truncate s).inner ≡ view s)
  unfolding truncate
  truncate_lem s v =
      let r = rezero_lem s v in
      let e : (truncate s).inner ≡ view s = rw r.2 (r.0 s.len) in
      let l : length (truncate s).inner ≡ s.len =
        ap length e ∙ length-window s.zero s.len s.inner v.len_in in
      (
        record {
          zero_in = omega (arith, r.1, l, v);
          len_in = omega (arith, r.2, l, v);
          visible_in = omega (arith, r.2, r.3, v);
          some_line = omega (arith, r.3, v);
          fits = omega (arith, l, v);
        },
        rw (r.1, r.2)
            (window-zero s.len (take s.len (rezero s).inner)
              ∙ take-take s.len s.len (rezero s).inner (omega arith)
              ∙ r.0 s.len),
        e,
      )

  -- `shrink_lines` forgets the topmost lines of the history.
  pub shrink_lines_lem :
      (s : Storage T) (shrinkage : ℕ)
      → IsValid s
      → shrinkage + s.visible_lines ≤ s.len
      → IsValid (shrink_lines s shrinkage)
        × (view (shrink_lines s shrinkage) ≡ take (s.len - shrinkage) (view s))
        × ((shrink_lines s shrinkage).len ≡ s.len - shrinkage)
        × ((shrink_lines s shrinkage).visible_lines ≡ s.visible_lines)
  unfolding shrink_lines
  shrink_lines_lem s shrinkage v h =
      let e : usize_sub s.len shrinkage ≡ s.len - shrinkage = omega (arith, v) in
      let s' : Storage T = record s { len = s.len - shrinkage } in
      let v' : IsValid s' = omega (arith, v) in
      let w = window-take s.zero s.len (s.len - shrinkage) s.inner (omega arith) in
      let t = truncate_lem s' v' in
      let (l, vis) = truncate_shape s' v' in
      rw e
        (elim (Bool-cases (ltb (usize_add (s.len - shrinkage) max_cache_size) (length s.inner))) [
          | inl b ↦ rw b (t.0, t.1 ∙ w, l, vis)
          | inr b ↦ rw b (v', w, refl, refl)
        ])

  -- `take_all` hands over the rows in use, from the bottom line up.
  pub take_all_lem : (s : Storage T) → IsValid s → (take_all s).0 ≡ view s
  unfolding take_all
  take_all_lem s v = (truncate_lem s v).2

-- Where `rotate` by `-count` moves the start of the ring.
rotate_index :
    (z c l : ℕ)
    → z < l
    → c ≤ l
    → l < 2 ^ 31
    → usize_of (pos z +ℤ (pos 0 -ℤ pos c) +ℤ pos l) % l
      ≡ (if ltb (z + l - c) l then z + l - c else z - c)
unfolding usize_of ◌+ℤ◌ ◌-ℤ◌
rotate_index z c l hz hc hl =
    let e : usize_of (pos z +ℤ (pos 0 -ℤ pos c) +ℤ pos l) ≡ z + l - c = ground arith in
    rw e (mod_ring (z + l - c) l (omega arith) ∙ ground arith)

module _ {ℓ} {T : Type ℓ} where
  -- `rotate` by `-count` moves the lines up by `count`: the rows that stood `count` lines past the
  -- end of the ring come in at the bottom, and the rows in use are above them.
  pub rotate_up :
      (s : Storage T) (count : ℕ)
      → IsValid s
      → count ≤ s.len
      → let s' = rotate s (pos 0 -ℤ pos count) in
        IsValid s' × (view s' ≡ window s'.zero count s'.inner ++ take (s.len - count) (view s))
  unfolding rotate
  rotate_up s count v h =
      let l = length s.inner in
      let z' : ℕ = if ltb (s.zero + l - count) l then s.zero + l - count else s.zero - count in
      let hz : z' < l = ground (arith, v) in
      rw (rotate_index s.zero count l v.zero_in (omega (arith, v)) v.fits) (
        omega (arith, v, hz),
        window-split z' s.zero s.len count s.inner hz v.len_in h (ground (arith, v))
            ∙ ap (λ rows. window z' count s.inner ++ rows)
                (window-take s.zero s.len (s.len - count) s.inner (omega arith)),
      )

  -- `rotate_down` moves the lines down by `count`: the bottom rows leave the screen, and those
  -- above them follow.
  pub rotate_down_lem :
      (s : Storage T) (count : ℕ)
      → IsValid s
      → count ≤ s.len
      → IsValid (rotate_down s count)
        × (take (s.len - count) (view (rotate_down s count)) ≡ drop count (view s))
  unfolding rotate_down
  rotate_down_lem s count v h =
      let l = length s.inner in
      let e : usize_add s.zero count ≡ s.zero + count = omega (arith, v) in
      let hz : slot s.zero l count < l = ground (arith, v) in
      rw (e, mod_ring (s.zero + count) l (omega (arith, v)))
        (
          omega (arith, v, hz),
          sym (window-take (slot s.zero l count) s.len (s.len - count) s.inner (omega arith))
              ∙ sym (
                  ap (drop count) (
                    window-split s.zero (slot s.zero l count) s.len count s.inner v.zero_in v.len_in
                      h refl)
                  ∙ drop-append count (window s.zero count s.inner)
                      (window (slot s.zero l count) (s.len - count) s.inner)
                      (omega (arith, length-window s.zero count s.inner (omega (arith, v))))
                  ∙ ap (λ r. r ++ window (slot s.zero l count) (s.len - count) s.inner)
                      (drop-all count (window s.zero count s.inner)
                        (omega (arith, length-window s.zero count s.inner (omega (arith, v)))))),
        )

  -- `replace_inner` with at least a screen of rows puts these in use, from the bottom line up.
  pub replace_inner_lem :
      (s : Storage T) (vec : List (Row T))
      → 0 < s.visible_lines
      → s.visible_lines ≤ length vec
      → length vec < 2 ^ 31
      → IsValid (replace_inner s vec) × (view (replace_inner s vec) ≡ vec)
  unfolding replace_inner
  replace_inner_lem s vec p h f =
      (omega arith, window-zero (length vec) vec ∙ take-all (length vec) vec (omega arith))

module _ {ℓ} {T : Type ℓ} ⦃g : GridCell T⦄ where
  -- A fresh storage is a screen of new rows.
  pub with_capacity_lem :
      (visible_lines columns : ℕ)
      → 0 < visible_lines
      → visible_lines < 2 ^ 31
      → IsValid {T = T} (with_capacity visible_lines columns)
        × (view {T = T} (with_capacity visible_lines columns)
            ≡ replicate visible_lines (Row.new columns))
  unfolding with_capacity
  with_capacity_lem n columns p f =
      let row : Row T = Row.new columns in
      let l = length-replicate n row in
      (
        omega (arith, l),
        window-zero n (replicate n row) ∙ take-all n (replicate n row) (omega (arith, l)),
      )

  -- Making room keeps the rows in use.
  reserve_lem :
      (s : Storage T) (k columns : ℕ)
      → IsValid s
      → length s.inner + max k max_cache_size < 2 ^ 31
      → let s' = reserve s k columns in
        IsValid s'
        × (s'.len ≡ s.len)
        × (s'.visible_lines ≡ s.visible_lines)
        × (view s' ≡ view s)
        × (s.len + k ≤ length s'.inner)
        × ((length s'.inner ≡ length s.inner)
            ⊎ (length s.inner < s.len + k)
              × (length s'.inner ≡ length s.inner + max k max_cache_size))
  unfolding reserve
  reserve_lem s k columns v h =
      let r = rezero_lem s v in
      let a : usize_add s.len k ≡ s.len + k = omega (arith, v) in
      let size = length s.inner + max k max_cache_size in
      let n : usize_add (length (rezero s).inner) (max k max_cache_size) ≡ size =
        omega (arith, r.4, h) in
      let row = Row.new columns in
      let grown = resize size row (rezero s).inner in
      let l = length-resize size row (rezero s).inner in
      elim (Bool-cases (ltb (length s.inner) (s.len + k))) [
        | inl b ↦
            rw (a, b, n, r.1, r.2, r.3)
              (
                omega (arith, v, l),
                refl,
                refl,
                window-zero s.len grown
                    ∙ ap (take s.len) (resize_grow size row (rezero s).inner (omega (arith, r.4)))
                    ∙ take-append s.len (rezero s).inner
                        (replicate (size - length (rezero s).inner) row) (omega (arith, r.4, v))
                    ∙ r.0 s.len,
                omega (arith, l, v),
                inr (ground (arith, b), l),
              )
        | inr b ↦ rw (a, b) (v, refl, refl, refl, ground arith, inl refl)
      ]

  -- `initialize` puts `additional_rows` more rows in use above those that were, which stay as they
  -- are, whether or not the buffer grows; if it has no room for them it grows by the maximum of that
  -- number and the size of the cache.
  pub initialize_lem :
      (s : Storage T) (additional_rows columns : ℕ)
      → IsValid s
      → length s.inner + max additional_rows max_cache_size < 2 ^ 31
      → let s' = initialize s additional_rows columns in
        IsValid s'
        × (s'.len ≡ s.len + additional_rows)
        × (s'.visible_lines ≡ s.visible_lines)
        × (take s.len (view s') ≡ view s)
        × ((length s'.inner ≡ length s.inner)
            ⊎ (length s.inner < s.len + additional_rows)
              × (length s'.inner ≡ length s.inner + max additional_rows max_cache_size))
  unfolding initialize
  initialize_lem s k columns v h =
      let s' = reserve s k columns in
      let (v', l, vis, same, room, top) = reserve_lem s k columns v h in
      let a : usize_add s'.len k ≡ s.len + k = omega (arith, l, v) in
      rw a (
        omega (arith, v', v, l, vis, room),
        refl,
        vis,
        sym (window-take s'.zero (s.len + k) s.len s'.inner (omega arith))
            ∙ ap (λ n. window s'.zero n s'.inner) (sym l)
            ∙ same,
        top,
      )
