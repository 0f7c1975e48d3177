-- ===== src/Term/Damage/Visible.antt =====
-- `TermDamageIterator`: which damage the iterator yields.
use velacritty.Prelude.{
  ℕ, ◌-◌, ◌≡◌, true, false, Option, none, some, if◌then◌else◌, List, [], ◌∷◌, map, length, take,
  refl, ap, ◌∙◌, Bool-cases, inl, inr,
}
use velacritty.Prelude.Iterators.{filter}
use velacritty.Prelude.Word.{usize_add}
use velacritty.Term.Damage.{
  LineDamageBounds, TermDamageIterator, is_damaged, iterator, next, visible, find_map,
}

-- The iterator yields the elements in their order, and then `none`.
pub data Yields : TermDamageIterator → List LineDamageBounds → Type 0 where
  done : (self : TermDamageIterator) → (next self).0 ≡ none → Yields self []
  more :
      (self rest : TermDamageIterator) (bounds : LineDamageBounds) (later : List LineDamageBounds)
      → next self ≡ (some bounds, rest)
      → Yields rest later
      → Yields self (bounds ∷ later)

-- The damage of a line, at its place in the viewport.
abbrev pub shift : ℕ → LineDamageBounds → LineDamageBounds
shift display_offset bounds = record bounds { line = usize_add bounds.line display_offset }

skip :
    (a b : TermDamageIterator) (bounds : List LineDamageBounds)
    → next a ≡ next b
    → Yields b bounds
    → Yields a bounds
skip a b [] e (done _ h) = done a (ap (λ r. r.0) e ∙ h)
skip a b (x ∷ xs) e (more _ rest _ _ h later) = more a rest x xs (e ∙ h) later

find_map-some :
    {A B : Type 0} (f : A → Option B) (x : A) (xs : List A) {y : B}
    → f x ≡ some y
    → find_map f (x ∷ xs) ≡ (some y, xs)
find_map-some f x xs e = rw (find_map, e) refl

find_map-none :
    {A B : Type 0} (f : A → Option B) (x : A) (xs : List A)
    → f x ≡ none
    → find_map f (x ∷ xs) ≡ find_map f xs
find_map-none f x xs e = rw (find_map, e) refl

module _ (offset : ℕ) (x : LineDamageBounds) (xs : List LineDamageBounds) where
  abbrev from : List LineDamageBounds → TermDamageIterator
  from lines = record { line_damage = lines; display_offset = offset }

  visible-damaged : is_damaged x ≡ true → visible offset x ≡ some (shift offset x)
  unfolding visible
  visible-damaged e = ap (λ b. if b then some (shift offset x) else none) e

  visible-undamaged : is_damaged x ≡ false → visible offset x ≡ none
  unfolding visible
  visible-undamaged e = ap (λ b. if b then some (shift offset x) else none) e

  after_find :
      Option LineDamageBounds × List LineDamageBounds → Option LineDamageBounds × TermDamageIterator
  after_find r = (r.0, from r.1)

  next-hit : is_damaged x ≡ true → next (from (x ∷ xs)) ≡ (some (shift offset x), from xs)
  unfolding next after_find
  next-hit e = ap after_find (find_map-some (visible offset) x xs (visible-damaged e))

  next-miss : is_damaged x ≡ false → next (from (x ∷ xs)) ≡ next (from xs)
  unfolding next after_find
  next-miss e = ap after_find (find_map-none (visible offset) x xs (visible-undamaged e))

rest-Yields :
    (offset : ℕ) (lines : List LineDamageBounds)
    → Yields
        (record { line_damage = lines; display_offset = offset })
        (map (shift offset) (filter is_damaged lines))
unfolding next visible
rest-Yields offset [] = done _ refl
rest-Yields offset (x ∷ xs) =
    let rest : TermDamageIterator = record { line_damage = xs; display_offset = offset } in
    elim (Bool-cases (is_damaged x)) [
      | inl e ↦
          rw e (more _ rest (shift offset x) _ (next-hit offset x xs e) (rest-Yields offset xs))
      | inr e ↦ rw e (skip _ rest _ (next-miss offset x xs e) (rest-Yields offset xs))
    ]

-- The iterator ends, and yields exactly the damaged ones among the lines that the viewport shows,
-- from the top, each moved down by the viewport's offset.
pub iterator-Yields :
    (lines : List LineDamageBounds) (display_offset : ℕ)
    → Yields (iterator lines display_offset) (
        map (shift display_offset) (filter is_damaged (take (length lines - display_offset) lines)))
unfolding iterator
iterator-Yields lines offset = rest-Yields offset (take (length lines - offset) lines)
