-- ===== src/Term/TabStops.antt =====
-- `TabStops` of velacritty_terminal/src/term/mod.rs.
use velacritty.Prelude.{
  ℕ, zero, suc, ◌+◌, ◌%◌, ◌≤◌, ◌<◌, ◌≡◌, Bool, false, Option, some, List, [], ◌∷◌, ◌==◌, length,
  get_elem?, set, replicate, refl, ap, arith, sym, ◌⊎◌, ◌∙◌, inl, inr, ◌-◌,
}

abbrev pub initial_tabstops : ℕ
initial_tabstops = 8

pub record TabStops : Type 0 where
  pub tabs : List Bool

abbrev pub is_tabstop : ℕ → Bool
is_tabstop index = (index % initial_tabstops) == 0

-- `(index..index + count).map(..)`.
unfoldable pub stops_from : ℕ → ℕ → List Bool
stops_from index zero = []
stops_from index (suc count) = is_tabstop index ∷ stops_from (index + 1) count

unfoldable pub new : ℕ → TabStops
new columns = record { tabs = stops_from 0 columns }

-- The bytes of the vector are set to zero.
unfoldable pub clear_all : TabStops → TabStops
clear_all self = record { tabs = replicate (length self.tabs) false }

-- `Vec::resize_with` whose closure counts `index` up from the old length.
unfoldable pub resize_tabs : ℕ → ℕ → List Bool → List Bool
resize_tabs index zero tabs = []
resize_tabs index (suc columns) [] = is_tabstop index ∷ resize_tabs (index + 1) columns []
resize_tabs index (suc columns) (tab ∷ tabs) = tab ∷ resize_tabs index columns tabs

unfoldable pub resize : TabStops → ℕ → TabStops
resize self columns = record { tabs = resize_tabs (length self.tabs) columns self.tabs }

-- `none` is the panic out of bounds.
unfoldable pub index : TabStops → ℕ → Option Bool
index self column = get_elem? self.tabs column

unfoldable pub index_mut : TabStops → ℕ → Bool → TabStops
index_mut self column tab = record { tabs = set self.tabs column tab }

-- The stop of a column after a change of the number of columns: the old one, or the initial one.
abbrev pub stop_at : List Bool → ℕ → ℕ → Bool
stop_at [] start i = is_tabstop (start + i)
stop_at (tab ∷ tabs) start zero = tab
stop_at (tab ∷ tabs) start (suc i) = stop_at tabs start i

resize_tabs-past :
    (start n i : ℕ) → i < n → get_elem? (resize_tabs start n []) i ≡ some (is_tabstop (start + i))
unfolding resize_tabs
resize_tabs-past start zero i h = absurd (omega arith)
resize_tabs-past start (suc n) zero h =
    ap (λ k. some (is_tabstop k)) {x = start} {y = start + 0} (omega arith)
resize_tabs-past start (suc n) (suc i) h =
    rw (resize_tabs-past (start + 1) n i (omega arith))
      (ap (λ k. some (is_tabstop k)) {x = start + 1 + i} {y = start + suc i} (omega arith))

stop_at-cases :
    (tabs : List Bool) (start i : ℕ)
    → ((i < length tabs) × (get_elem? tabs i ≡ some (stop_at tabs start i)))
      ⊎ ((length tabs ≤ i) × (stop_at tabs start i ≡ is_tabstop (start + (i - length tabs))))
stop_at-cases [] start i =
    inr (omega arith, ap is_tabstop {x = start + i} {y = start + (i - 0)} (omega arith))
stop_at-cases (tab ∷ tabs) start zero = inl (omega arith, refl)
stop_at-cases (tab ∷ tabs) start (suc i) = elim (stop_at-cases tabs start i) [
  | inl (k, e) ↦ inl (omega (arith, k), e)
  | inr (k, e) ↦ inr (
    omega (arith, k),
    e
        ∙ ap is_tabstop {x = start + (i - length tabs)} {y = start + (suc i - suc (length tabs))}
            (omega arith),
  )
]

resize_tabs-index :
    (tabs : List Bool) (start n i : ℕ)
    → i < n
    → get_elem? (resize_tabs start n tabs) i ≡ some (stop_at tabs start i)
unfolding resize_tabs
resize_tabs-index tabs start zero i h = absurd (omega arith)
resize_tabs-index [] start (suc n) i h = resize_tabs-past start (suc n) i h
resize_tabs-index (tab ∷ tabs) start (suc n) zero h = refl
resize_tabs-index (tab ∷ tabs) start (suc n) (suc i) h =
    resize_tabs-index tabs start n i (omega arith)

-- After a change of the number of columns, a column that was there keeps its stop, also when
-- stops were set or removed before, and a new column has a stop when it is a multiple of eight.
pub index-resize :
    (self : TabStops) (columns i : ℕ)
    → i < columns
    → ((i < length self.tabs) × (index (resize self columns) i ≡ index self i))
      ⊎ ((length self.tabs ≤ i) × (index (resize self columns) i ≡ some (is_tabstop i)))
unfolding index resize
index-resize self columns i h = elim (stop_at-cases self.tabs (length self.tabs) i) [
  | inl (k, e) ↦ inl (k, rw (resize_tabs-index self.tabs (length self.tabs) columns i h) (sym e))
  | inr (k, e) ↦
      let same : length self.tabs + (i - length self.tabs) ≡ i = omega (arith, k) in
      inr (k, rw (resize_tabs-index self.tabs (length self.tabs) columns i h, e, same) refl)
]
