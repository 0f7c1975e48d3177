-- ===== src/Term/Damage/Bounds.antt =====
-- `TermDamageState`: the bounds of the damage of each line, and what they cover.
use velacritty.Prelude.{
  ℕ, zero, suc, ◌+◌, ◌≤◌, ◌<◌, ◌≡◌, ◌⊎◌, inl, inr, some, List, [], ◌∷◌, map, length, get_elem?, set,
  refl, ap, ◌∙◌, sym, subst, arith, Option-cases, ◌==◌, Bool-cases, get_elem?-set, ==_iff,
  length-set, length-map, if◌then◌else◌,
}
use velacritty.Term.Damage.{
  LineDamageBounds, TermDamageState, undamaged, undamaged_lines, expand, new, resize, damage_line,
  reset, reset_line,
}

-- The states that the operations reach, with the size of the screen. The last column of a damage may
-- be the one past the screen: `erase_chars` ends its damage there.
pub data IsReachable : ℕ → ℕ → TermDamageState → Type 0 where
  started : (cols rows : ℕ) → IsReachable cols rows (new cols rows)
  resized :
      (c r cols rows : ℕ) (self : TermDamageState)
      → IsReachable c r self
      → IsReachable cols rows (resize self cols rows)
  damaged :
      (cols rows : ℕ) (self : TermDamageState) (line left right : ℕ)
      → left ≤ right
      → left < cols
      → right ≤ cols
      → IsReachable cols rows self
      → IsReachable cols rows (damage_line self line left right)
  cleared :
      (cols rows : ℕ) (self : TermDamageState)
      → IsReachable cols rows self
      → IsReachable cols rows (reset self cols)

-- The bounds are those of no damage, or they begin on the screen and end there or one column past it.
abbrev pub IsBounds : ℕ → LineDamageBounds → Type 0
IsBounds cols b =
    ((b.left ≡ cols) × (b.right ≡ 0)) ⊎ ((b.left ≤ b.right) × (b.left < cols) × (b.right ≤ cols))

-- Every line has the bounds of its own number.
pub record IsDamage (cols rows : ℕ) (lines : List LineDamageBounds) : Type 0 where
  pub count : length lines ≡ rows
  pub each :
      (i : ℕ) (b : LineDamageBounds) → get_elem? lines i ≡ some b → (b.line ≡ i) × IsBounds cols b

some_inj : {A : Type 0} {a b : A} → some a ≡ some b → a ≡ b
some_inj e = cc e

get_elem?-bound :
    {A : Type 0} (xs : List A) (i : ℕ) (x : A) → get_elem? xs i ≡ some x → i < length xs
get_elem?-bound [] i x e = absurd (cc e)
get_elem?-bound (y ∷ xs) zero x e = omega arith
get_elem?-bound (y ∷ xs) (suc i) x e = omega (arith, get_elem?-bound xs i x e)

get_elem?-map :
    {A B : Type 0} (f : A → B) (xs : List A) (i : ℕ) (y : B)
    → get_elem? (map f xs) i ≡ some y
    → (x : A) × (get_elem? xs i ≡ some x) × (f x ≡ y)
get_elem?-map f [] i y e = absurd (cc e)
get_elem?-map f (x ∷ xs) zero y e = (x, refl, some_inj e)
get_elem?-map f (x ∷ xs) (suc i) y e = get_elem?-map f xs i y e

expand-IsBounds :
    (cols : ℕ) (b : LineDamageBounds) (left right : ℕ)
    → left ≤ right
    → left < cols
    → right ≤ cols
    → IsBounds cols b
    → IsBounds cols (expand b left right)
unfolding expand
expand-IsBounds cols b left right h k m (inl (e, f)) =
    inr (omega (arith, e, f), omega (arith, e), omega (arith, f))
expand-IsBounds cols b left right h k m (inr (e, f, g)) =
    inr (omega (arith, e), omega (arith, f), omega (arith, g))

undamaged-each :
    (cols start n i : ℕ) (b : LineDamageBounds)
    → get_elem? (undamaged_lines cols start n) i ≡ some b
    → (b.line ≡ start + i) × ((b.left ≡ cols) × (b.right ≡ 0))
unfolding undamaged_lines undamaged
undamaged-each cols start zero i b e = absurd (cc e)
undamaged-each cols start (suc n) zero b e =
    subst (λ x. (x.line ≡ start + 0) × ((x.left ≡ cols) × (x.right ≡ 0))) (some_inj e)
      (omega arith, (refl, refl))
undamaged-each cols start (suc n) (suc i) b e =
    let (l, r) = undamaged-each cols (start + 1) n i b e in (omega (arith, l), r)

length-undamaged_lines : (cols start n : ℕ) → length (undamaged_lines cols start n) ≡ n
unfolding undamaged_lines
length-undamaged_lines cols start zero = refl
length-undamaged_lines cols start (suc n) = ap suc (length-undamaged_lines cols (start + 1) n)

expand_line : (b : LineDamageBounds) (left right : ℕ) → (expand b left right).line ≡ b.line
unfolding expand
expand_line b left right = refl

-- A write of a line keeps what holds of each line, if the written one has it.
set-IsDamage :
    (cols rows : ℕ) (lines : List LineDamageBounds) (line : ℕ) (b : LineDamageBounds)
    → line < length lines
    → b.line ≡ line
    → IsBounds cols b
    → IsDamage cols rows lines
    → IsDamage cols rows (set lines line b)
set-IsDamage cols rows lines line b h e w d = record {
  count = length-set lines line b ∙ d.count;
  each = λ i x g.
      let f = sym (get_elem?-set lines line i b h) ∙ g in
      elim (Bool-cases (line == i)) [
        | inl t ↦
            let same : b ≡ x =
              some_inj (subst (λ c. (if c then some b else get_elem? lines i) ≡ some x) t f) in
            subst (λ y. (y.line ≡ i) × IsBounds cols y) same (e ∙ (==_iff line i).0 t, w)
        | inr t ↦ d.each i x (subst (λ c. (if c then some b else get_elem? lines i) ≡ some x) t f)
      ];
}

undamaged_lines-IsDamage : (cols rows : ℕ) → IsDamage cols rows (undamaged_lines cols 0 rows)
undamaged_lines-IsDamage cols rows = record {
  count = length-undamaged_lines cols 0 rows;
  each = λ i b e. let (l, r) = undamaged-each cols 0 rows i b e in (omega (arith, l), inl r);
}

damage_line-IsDamage :
    (cols rows : ℕ) (self : TermDamageState) (line left right : ℕ)
    → left ≤ right
    → left < cols
    → right ≤ cols
    → IsDamage cols rows self.lines
    → IsDamage cols rows (damage_line self line left right).lines
unfolding damage_line
damage_line-IsDamage cols rows self line left right h k m d =
    elim (Option-cases (get_elem? self.lines line)) [
      | inl e ↦ rw (damage_line, e) d
      | inr (b, e) ↦
          let (l, w) = d.each line b e in
          rw (damage_line, e)
            (set-IsDamage cols rows self.lines line (expand b left right)
              (get_elem?-bound self.lines line b e) (expand_line b left right ∙ l)
              (expand-IsBounds cols b left right h k m w) d)
    ]

reset-IsDamage :
    (cols rows : ℕ) (lines : List LineDamageBounds)
    → IsDamage cols rows lines
    → IsDamage cols rows (map (λ line. reset_line line cols) lines)
unfolding reset_line undamaged
reset-IsDamage cols rows lines d = record {
  count = length-map lines (λ line. reset_line line cols) ∙ d.count;
  each = λ i b e.
      let (old, f, g) = get_elem?-map (λ line. reset_line line cols) lines i b e in
      subst (λ y. (y.line ≡ i) × IsBounds cols y) g ((d.each i old f).0, inl (refl, refl));
}

-- In every state that new, resize, reset and damage_line reach, each line of the screen has one entry
-- with its own number, whose bounds are those of no damage, or begin on the screen and end at most
-- one column past it. Each damage_line goes from a column of the screen to a column that is not
-- before it, at most the one past the screen, as that of `erase_chars` may.
pub IsReachable-IsDamage :
    {cols rows : ℕ} {self : TermDamageState}
    → IsReachable cols rows self
    → IsDamage cols rows self.lines
unfolding new resize reset
IsReachable-IsDamage (started cols rows) = undamaged_lines-IsDamage cols rows
IsReachable-IsDamage (resized c r cols rows self w) = undamaged_lines-IsDamage cols rows
IsReachable-IsDamage (damaged cols rows self line left right h k m w) =
    damage_line-IsDamage cols rows self line left right h k m (IsReachable-IsDamage w)
IsReachable-IsDamage (cleared cols rows self w) =
    reset-IsDamage cols rows self.lines (IsReachable-IsDamage w)
