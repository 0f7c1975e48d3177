-- ===== src/Term/Damage/Covers.antt =====
-- What a damaged line covers, and that a reset leaves nothing for the renderer to draw.
use velacritty.Prelude.{
  ℕ, ◌-◌, ◌≤◌, ◌<◌, ◌≡◌, inl, inr, false, some, List, [], ◌∷◌, map, length, take, get_elem?,
  get_elem?-set, refl, ap, ◌∙◌, sym, subst, arith, ◌==◌, ==_iff, Bool-cases, leb-false,
  get_elem?-some, if◌then◌else◌, zero, suc,
}
use velacritty.Prelude.Iterators.{filter}
use velacritty.Term.Damage.{
  LineDamageBounds, TermDamageState, expand, is_damaged, damage_line, reset, reset_line, undamaged,
  iterator,
}
use velacritty.Term.Damage.Visible.{Yields, iterator-Yields, shift}

-- The damage has a column of a line of the screen.
abbrev pub Covers : List LineDamageBounds → ℕ → ℕ → Type 0
Covers lines line column =
    (b : LineDamageBounds) × (get_elem? lines line ≡ some b)
    × (b.left ≤ column)
    × (column ≤ b.right)

expand-covers_old :
    (b : LineDamageBounds) (left right column : ℕ)
    → b.left ≤ column
    → column ≤ b.right
    → ((expand b left right).left ≤ column) × (column ≤ (expand b left right).right)
unfolding expand
expand-covers_old b left right column h k = (omega (arith, h), omega (arith, k))

expand-covers_new :
    (b : LineDamageBounds) (left right column : ℕ)
    → left ≤ column
    → column ≤ right
    → ((expand b left right).left ≤ column) × (column ≤ (expand b left right).right)
unfolding expand
expand-covers_new b left right column h k = (omega (arith, h), omega (arith, k))

damage_line-lines :
    (self : TermDamageState) (line left right : ℕ) (b : LineDamageBounds)
    → line < length self.lines
    → get_elem? self.lines line ≡ some b
    → (i : ℕ)
    → get_elem? (damage_line self line left right).lines i
      ≡ (if line == i then some (expand b left right) else get_elem? self.lines i)
unfolding damage_line
damage_line-lines self line left right b h e i =
    rw (damage_line, e) (get_elem?-set self.lines line i (expand b left right) h)

-- Damage of columns of a line of the screen covers all of them, covers what was covered before, on
-- every line, and leaves the other lines as they are.
pub damage_line_lem :
    (self : TermDamageState) (line left right : ℕ)
    → line < length self.lines
    → let after = (damage_line self line left right).lines in
      ((c : ℕ) → left ≤ c → c ≤ right → Covers after line c)
      × ((i c : ℕ) → Covers self.lines i c → Covers after i c)
      × ((i : ℕ) → (line == i) ≡ false → get_elem? after i ≡ get_elem? self.lines i)
damage_line_lem self line left right h =
    let (b, e) = get_elem?-some self.lines line h in
    let f = damage_line-lines self line left right b h e in
    (
      λ c k l.
          let (lo, hi) = expand-covers_new b left right c k l in
          (
            expand b left right,
            f line
                ∙ ap (λ t. if t then some (expand b left right) else get_elem? self.lines line)
                    ((==_iff line line).1 refl),
            lo,
            hi,
          ),
      λ i c (x, g, k, l). elim (Bool-cases (line == i)) [
        | inl t ↦
            let same : some x ≡ some b =
              sym g ∙ ap (get_elem? self.lines) (sym ((==_iff line i).0 t)) ∙ e in
            let agree : x ≡ b = cc same in
            let k' : b.left ≤ c = subst (λ (y : LineDamageBounds). y.left ≤ c) agree k in
            let l' : c ≤ b.right = subst (λ (y : LineDamageBounds). c ≤ y.right) agree l in
            let (lo, hi) = expand-covers_old b left right c k' l' in
            (
              expand b left right,
              f i ∙ ap (λ t. if t then some (expand b left right) else get_elem? self.lines i) t,
              lo,
              hi,
            )
        | inr t ↦ (
          x,
          f i ∙ ap (λ t. if t then some (expand b left right) else get_elem? self.lines i) t ∙ g,
          k,
          l,
        )
      ],
      λ i t. f i ∙ ap (λ t. if t then some (expand b left right) else get_elem? self.lines i) t,
    )

reset_line-undamaged :
    (b : LineDamageBounds) (cols : ℕ) → 0 < cols → is_damaged (reset_line b cols) ≡ false
unfolding reset_line undamaged is_damaged
reset_line-undamaged b cols h = leb-false cols 0 h

none_damaged :
    (lines : List LineDamageBounds) (cols n : ℕ)
    → 0 < cols
    → filter is_damaged (take n (map (λ line. reset_line line cols) lines)) ≡ []
none_damaged lines cols zero h = refl
none_damaged [] cols (suc n) h = refl
none_damaged (x ∷ xs) cols (suc n) h = rw (reset_line-undamaged x cols h) (none_damaged xs cols n h)

-- After a reset for a screen with columns, the iterator over the damage yields nothing.
pub reset-Yields :
    (self : TermDamageState) (num_cols display_offset : ℕ)
    → 0 < num_cols
    → Yields (iterator (reset self num_cols).lines display_offset) []
unfolding reset
reset-Yields self cols offset h =
    let after = map (λ line. reset_line line cols) self.lines in
    subst (Yields (iterator after offset))
      (ap (map (shift offset)) (none_damaged self.lines cols (length after - offset) h))
      (iterator-Yields after offset)
