-- ===== src/Scheduler/Queue.antt =====
-- The queue of timers: where a new one goes, and what its insertion keeps.
use velacritty.Prelude.{
  ℕ, ◌+◌, ◌≤◌, ◌<◌, ◌≡◌, Bool, false, List, [], ◌∷◌, ◌++◌, arith, ltb, leb, refl, Option-cases,
  Bool-cases, inl, inr, ltb-false, lt→ltb, ltb→lt, ltb→le, sym, subst, leb-false, leb-true,
}
use velacritty.Prelude.Iterators.{filter, position}
use velacritty.Scheduler.{Timer, insert_index, enqueue}

module _ {E W : Type 0} where
  abbrev pub All : (Timer E W → Type 0) → List (Timer E W) → Type 0
  All P [] = Unit {0}
  All P (timer ∷ timers) = P timer × All P timers

  -- No timer of the list is due before the time.
  abbrev pub AtLeast : ℕ → List (Timer E W) → Type 0
  AtLeast time = All (λ timer. time ≤ timer.deadline)

  -- The deadlines grow along the list.
  abbrev pub IsSorted : List (Timer E W) → Type 0
  IsSorted [] = Unit {0}
  IsSorted (timer ∷ timers) = AtLeast timer.deadline timers × IsSorted timers

  enqueue_before :
      (x t : Timer E W) (ts : List (Timer E W))
      → x.deadline < t.deadline
      → enqueue x (t ∷ ts) ≡ x ∷ t ∷ ts
  unfolding enqueue insert_index
  enqueue_before x t ts h = rw (lt→ltb x.deadline t.deadline h)

  enqueue_after :
      (x t : Timer E W) (ts : List (Timer E W))
      → t.deadline ≤ x.deadline
      → enqueue x (t ∷ ts) ≡ t ∷ enqueue x ts
  unfolding enqueue insert_index
  enqueue_after x t ts h =
      elim (Option-cases (position (λ timer. ltb x.deadline timer.deadline) ts)) [
        | inl e ↦ rw (ltb-false x.deadline t.deadline h, e)
        | inr (i, e) ↦ rw (ltb-false x.deadline t.deadline h, e)
      ]

  pub AtLeast-trans : {a b : ℕ} (ts : List (Timer E W)) → a ≤ b → AtLeast b ts → AtLeast a ts
  AtLeast-trans [] h w = tt
  AtLeast-trans (t ∷ ts) h (here, later) = (omega (arith, h, here), AtLeast-trans ts h later)

  pub enqueue-All :
      (P : Timer E W → Type 0) (x : Timer E W) (ts : List (Timer E W))
      → P x
      → All P ts
      → All P (enqueue x ts)
  unfolding enqueue insert_index
  enqueue-All P x [] h w = (h, tt)
  enqueue-All P x (t ∷ ts) h w = elim (Bool-cases (ltb x.deadline t.deadline)) [
    | inl e ↦ subst (All P) (sym (enqueue_before x t ts (ltb→lt x.deadline t.deadline e))) (h, w)
    | inr e ↦
        subst (All P) (sym (enqueue_after x t ts (ltb→le x.deadline t.deadline e)))
          (w.0, enqueue-All P x ts h w.1)
  ]

  -- A test that the new timer fails selects the same timers.
  pub filter-enqueue :
      (p : Timer E W → Bool) (x : Timer E W) (ts : List (Timer E W))
      → p x ≡ false
      → filter p (enqueue x ts) ≡ filter p ts
  unfolding enqueue insert_index
  filter-enqueue p x [] h = rw h
  filter-enqueue p x (t ∷ ts) h = elim (Bool-cases (ltb x.deadline t.deadline)) [
    | inl e ↦ rw (enqueue_before x t ts (ltb→lt x.deadline t.deadline e), h)
    | inr e ↦ rw (enqueue_after x t ts (ltb→le x.deadline t.deadline e), filter-enqueue p x ts h)
  ]

  -- The insertion keeps the order.
  pub enqueue-IsSorted :
      (x : Timer E W) (ts : List (Timer E W)) → IsSorted ts → IsSorted (enqueue x ts)
  unfolding enqueue insert_index
  enqueue-IsSorted x [] w = (tt, tt)
  enqueue-IsSorted x (t ∷ ts) (first, sorted) = elim (Bool-cases (ltb x.deadline t.deadline)) [
    | inl e ↦
        let h = ltb→lt x.deadline t.deadline e in
        subst IsSorted (sym (enqueue_before x t ts h))
          ((omega (arith, h), AtLeast-trans ts (omega (arith, h)) first), (first, sorted))
    | inr e ↦
        let h = ltb→le x.deadline t.deadline e in
        subst IsSorted (sym (enqueue_after x t ts h)) (
          enqueue-All (λ timer. t.deadline ≤ timer.deadline) x ts h first,
          enqueue-IsSorted x ts sorted,
        )
  ]

  -- The timers that a test keeps, of a list that it keeps none of.
  pub filter-none :
      (limit : ℕ) (ts : List (Timer E W))
      → AtLeast (limit + 1) ts
      → filter (λ t. leb t.deadline limit) ts ≡ []
  filter-none limit [] w = refl
  filter-none limit (t ∷ ts) w =
      rw (leb-false t.deadline limit (omega (arith, w.0)), filter-none limit ts w.1)

  filter-all :
      (limit : ℕ) (ts : List (Timer E W))
      → AtLeast (limit + 1) ts
      → filter (λ t. ltb limit t.deadline) ts ≡ ts
  filter-all limit [] w = refl
  filter-all limit (t ∷ ts) w =
      rw (lt→ltb limit t.deadline (omega (arith, w.0)), filter-all limit ts w.1)

  -- A new timer goes behind those with the same deadline or an earlier one, and before the others.
  pub enqueue_lem :
      (x : Timer E W) (ts : List (Timer E W))
      → IsSorted ts
      → enqueue x ts
        ≡ filter (λ t. leb t.deadline x.deadline) ts
          ++ (x ∷ filter (λ t. ltb x.deadline t.deadline) ts)
  unfolding enqueue insert_index
  enqueue_lem x [] w = refl
  enqueue_lem x (t ∷ ts) (first, sorted) = elim (Bool-cases (ltb x.deadline t.deadline)) [
    | inl e ↦
        let h = ltb→lt x.deadline t.deadline e in
        let later = AtLeast-trans {a = x.deadline + 1} ts (omega (arith, h)) first in
        rw (
          enqueue_before x t ts h,
          leb-false t.deadline x.deadline h,
          e,
          filter-none x.deadline ts later,
          filter-all x.deadline ts later,
        )
    | inr e ↦
        let h = ltb→le x.deadline t.deadline e in
        rw (enqueue_after x t ts h, leb-true t.deadline x.deadline h, e, enqueue_lem x ts sorted)
  ]
