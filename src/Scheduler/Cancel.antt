-- ===== src/Scheduler/Cancel.antt =====
-- `Scheduler::schedule`, `unschedule` and `unschedule_window` against the list of the timers.
use velacritty.Prelude.{
  ℕ, suc, ◌+◌, ◌≡◌, Bool, true, false, not, ◌&&◌, ◌||◌, none, some, List, [], ◌∷◌, ◌++◌, ltb, leb,
  refl, ap, ◌∙◌, sym, Bool-cases, ◌⊎◌, inl, inr, if◌then◌else◌,
}
use velacritty.Prelude.Iterators.{filter, any, position, remove_at}
use velacritty.Scheduler.{
  Timer, TimerId, Scheduler, schedule, eq_id, eq_topic, unschedule, scheduled, unschedule_window,
}
use velacritty.Scheduler.Queue.{IsSorted, enqueue_lem, enqueue-IsSorted}

module _ {E W : Type 0} (clock : ℕ → ℕ) where
  -- In a sorted queue, a new timer stands behind those whose deadline is its own or earlier, and
  -- before those whose deadline is later; its deadline is its interval after the clock's reading.
  pub schedule_lem :
      (self : Scheduler E W) (event : E) (interval : ℕ) (repeat : Bool) (id : TimerId W)
      → IsSorted self.timers
      → let deadline = clock self.reads + interval in
        let after = schedule clock self event interval repeat id in
        IsSorted after.timers
        × (after.timers
            ≡ filter (λ t. leb t.deadline deadline) self.timers
              ++ (record {
                deadline = deadline;
                event = event;
                id = id;
                interval = if repeat then some interval else none;
              }
                  ∷ filter (λ t. ltb deadline t.deadline) self.timers))
  unfolding schedule
  schedule_lem self event interval repeat id w =
      (enqueue-IsSorted _ self.timers w, enqueue_lem _ self.timers w)

-- What the search for an element and its removal do.
module _ {ℓ} {A : Type ℓ} (p : A → Bool) where
  -- The first element that passes the test, and the elements round it.
  pub record IsFirst (xs : List A) (found : A) (rest : List A) : Type ℓ where
    pub before : List A
    pub after : List A
    pub whole : xs ≡ before ++ (found ∷ after)
    pub others : rest ≡ before ++ after
    pub matches : p found ≡ true
    pub none_before : any p before ≡ false

  record IsAbsent (xs : List A) : Type ℓ where
    search : position p xs ≡ none
    no_match : any p xs ≡ false

  record IsFound (xs : List A) : Type ℓ where
    index : ℕ
    found : A
    rest : List A
    search : position p xs ≡ some index
    removed : remove_at index xs ≡ (some found, rest)
    first : IsFirst xs found rest

  position-cases : (xs : List A) → IsAbsent xs ⊎ IsFound xs
  position-cases [] = inl (record { search = refl; no_match = refl })
  position-cases (x ∷ xs) = elim (Bool-cases (p x)) [
    | inl h ↦ inr (record {
      index = 0;
      found = x;
      rest = xs;
      search = rw h refl;
      removed = refl;
      first = record {
        before = [];
        after = xs;
        whole = refl;
        others = refl;
        matches = h;
        none_before = refl;
      };
    })
    | inr h ↦ elim (position-cases xs) [
      | inl a ↦ inl (record { search = rw (h, a.search) refl; no_match = rw (h, a.no_match) refl })
      | inr f ↦ inr (record {
        index = suc f.index;
        found = f.found;
        rest = x ∷ f.rest;
        search = rw (h, f.search) refl;
        removed = rw f.removed refl;
        first = record {
          before = x ∷ f.first.before;
          after = f.first.after;
          whole = ap (λ r. x ∷ r) f.first.whole;
          others = ap (λ r. x ∷ r) f.first.others;
          matches = f.first.matches;
          none_before = rw (h, f.first.none_before) refl;
        };
      })
    ]
  ]

module _ {E W : Type 0} (eq_window : W → W → Bool) where
  abbrev matches : TimerId W → Timer E W → Bool
  matches id timer = eq_id eq_window timer.id id

  -- Either no timer has the identifier and nothing changes, or the first timer of the queue that
  -- has it is taken out and returned, and the others keep their places.
  pub unschedule_lem :
      (self : Scheduler E W) (id : TimerId W)
      → ((scheduled eq_window self id ≡ false) × (unschedule eq_window self id ≡ (none, self)))
        ⊎ ((timer : Timer E W) × (rest : List (Timer E W)) × (unschedule eq_window self id
              ≡ (some timer, record self { timers = rest }))
            × IsFirst (λ t. eq_id eq_window t.id id) self.timers timer rest)
  unfolding unschedule scheduled
  unschedule_lem self id = elim (position-cases (matches id) self.timers) [
    | inl a ↦ inl (a.no_match, rw (unschedule, a.search) refl)
    | inr f ↦ inr (f.found, f.rest, rw (unschedule, f.search, f.removed) refl, f.first)
  ]

-- The tests of an element that `retain` may drop: `a` whether it is in the window, `b` whether the
-- identifier sought is, `m` whether it has that identifier, `s` for the later elements.
and_false : (b : Bool) → false ≡ not b && false
and_false true = refl
and_false false = refl

and_right : (a b : Bool) → (a && b) ≡ true → b ≡ true
and_right true b h = h
and_right false b h = cc h

dropped_test : (b m s : Bool) → (m ≡ true → b ≡ true) → not b && s ≡ not b && (m || s)
dropped_test true m s h = refl
dropped_test false true s h = cc (h refl)
dropped_test false false s h = refl

kept_test : (b m s : Bool) → (m ≡ true → b ≡ false) → m || (not b && s) ≡ not b && (m || s)
kept_test true true s h = cc (h refl)
kept_test false true s h = refl
kept_test b false s h = refl

module _ {E W : Type 0} (eq_window : W → W → Bool) where
  matches-window :
      ((a b c : W) → eq_window a b ≡ true → eq_window a c ≡ eq_window b c)
      → (t : Timer E W) (id : TimerId W) (w : W) → matches eq_window id t ≡ true
      → eq_window t.id.window_id w ≡ eq_window id.window_id w
  unfolding eq_id
  matches-window same t id w h = same _ _ w (and_right (eq_topic t.id.topic id.topic) _ h)

  any-retained :
      ((a b c : W) → eq_window a b ≡ true → eq_window a c ≡ eq_window b c)
      → (timers : List (Timer E W)) (id : TimerId W) (w : W)
      → any (matches eq_window id) (filter (λ timer. not (eq_window timer.id.window_id w)) timers)
        ≡ not (eq_window id.window_id w) && any (matches eq_window id) timers
  any-retained same [] id w = and_false (eq_window id.window_id w)
  any-retained same (t ∷ ts) id w =
      let b = eq_window id.window_id w in
      let m = matches eq_window id t in
      let s = any (matches eq_window id) ts in
      let agree = matches-window same t id w in
      elim (Bool-cases (eq_window t.id.window_id w)) [
        | inl e ↦ rw (e, any-retained same ts id w) (dropped_test b m s (λ h. sym (agree h) ∙ e))
        | inr e ↦ rw (e, any-retained same ts id w) (kept_test b m s (λ h. sym (agree h) ∙ e))
      ]

  -- After the timers of a window were removed, a timer identifier is scheduled when it was before
  -- and belongs to another window, if the test of identifiers is compatible with equality.
  pub unschedule_window_lem :
      ((a b c : W) → eq_window a b ≡ true → eq_window a c ≡ eq_window b c)
      → (self : Scheduler E W) (w : W) (id : TimerId W)
      → scheduled eq_window (unschedule_window eq_window self w) id
        ≡ not (eq_window id.window_id w) && scheduled eq_window self id
  unfolding scheduled unschedule_window
  unschedule_window_lem same self w id = any-retained same self.timers id w
