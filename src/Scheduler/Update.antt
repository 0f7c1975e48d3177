-- ===== src/Scheduler/Update.antt =====
-- `Scheduler::update`: which events it sends, and that its loop ends.
use mathlib.Core.List.{append_assoc, append-nil}
use velacritty.Prelude.{
  ℕ, zero, suc, ◌+◌, ◌≤◌, ◌<◌, ◌≡◌, Option, none, some, List, [], ◌∷◌, ◌++◌, arith, leb, refl, ◌∙◌,
  sym, subst, Bool-cases, Option-cases, inl, inr, length, map, leb-false, leb→lt, ◌⊎◌,
}
use velacritty.Prelude.Iterators.{filter}
use velacritty.Scheduler.{
  Timer, Scheduler, schedule, repeat_timer, send_event, fire, fire_all, update, front_deadline,
}
use velacritty.Scheduler.Queue.{
  All, AtLeast, IsSorted, AtLeast-trans, enqueue-All, enqueue-IsSorted, filter-enqueue, filter-none,
}

-- A repeated timer has a positive interval.
abbrev pub IsPositive : Option ℕ → Type 0
IsPositive none = Unit {0}
IsPositive (some interval) = 0 < interval

abbrev pub IsMonotone : (ℕ → ℕ) → Type 0
IsMonotone clock = (i j : ℕ) → i ≤ j → clock i ≤ clock j

module _ {E W : Type 0} where
  abbrev pub due : ℕ → List (Timer E W) → List (Timer E W)
  due now timers = filter (λ timer. leb timer.deadline now) timers

  -- The queues that the loop meets.
  pub record IsQueue (timers : List (Timer E W)) : Type 0 where
    pub sorted : IsSorted timers
    pub positive : All (λ timer. IsPositive timer.interval) timers

  -- What the loop leaves of a scheduler: every event that was due is sent, no timer is due.
  pub record IsUpdated (now : ℕ) (before after : Scheduler E W) : Type 0 where
    pub sent : after.event_proxy ≡ before.event_proxy ++ map (λ t. t.event) (due now before.timers)
    pub pending : AtLeast (now + 1) after.timers
    pub queue : IsQueue after.timers

module _ {E W : Type 0} (clock : ℕ → ℕ) where
  -- A timer that fires goes back into the queue past the present, or not at all.
  record IsFired (now : ℕ) (before next : Scheduler E W) : Type 0 where
    queue : IsQueue next.timers
    same_due : due now next.timers ≡ due now before.timers
    same_proxy : next.event_proxy ≡ before.event_proxy
    read : now ≤ clock next.reads

  repeat_timer-IsFired :
      IsMonotone clock
      → (now : ℕ) (self : Scheduler E W) (timer : Timer E W) → IsPositive timer.interval
      → now ≤ clock self.reads
      → IsQueue self.timers
      → IsFired now self (repeat_timer clock self timer)
  unfolding repeat_timer schedule
  repeat_timer-IsFired mono now self timer w h q = elim (Option-cases timer.interval) [
    | inl e ↦ rw e (record { queue = q; same_due = refl; same_proxy = refl; read = h })
    | inr (d, e) ↦
        let later : 0 < d = subst IsPositive e w in
        rw e (record {
          queue = record {
            sorted = enqueue-IsSorted _ self.timers q.sorted;
            positive = enqueue-All (λ t. IsPositive t.interval) _ self.timers later q.positive;
          };
          same_due =
              filter-enqueue (λ t. leb t.deadline now) _ self.timers
                (leb-false (clock self.reads + d) now (omega (arith, later, h)));
          same_proxy = refl;
          read = omega (arith, h, mono self.reads (self.reads + 1) (omega arith));
        })
  ]

  -- The loop's condition is false.
  record IsDone (now : ℕ) (self : Scheduler E W) : Type 0 where
    stops : fire clock now self ≡ none
    none_due : due now self.timers ≡ []
    pending : AtLeast (now + 1) self.timers

  -- A round of the loop sends the first event that is due.
  record IsRound (now : ℕ) (self next : Scheduler E W) : Type 0 where
    runs : fire clock now self ≡ some next
    queue : IsQueue next.timers
    read : now ≤ clock next.reads
    fewer : suc (length (due now next.timers)) ≡ length (due now self.timers)
    events :
        next.event_proxy ++ map (λ t. t.event) (due now next.timers)
        ≡ self.event_proxy ++ map (λ t. t.event) (due now self.timers)

  fire_parts :
      IsMonotone clock
      → (now : ℕ) (timers : List (Timer E W)) (proxy : List E) (reads : ℕ) → now ≤ clock reads
      → IsQueue timers
      → let self : Scheduler E W = record { timers = timers; event_proxy = proxy; reads = reads } in
        IsDone now self ⊎ ((next : Scheduler E W) × IsRound now self next)
  unfolding fire send_event
  fire_parts mono now [] proxy reads h q =
      inl (record { stops = refl; none_due = refl; pending = tt })
  fire_parts mono now (t ∷ ts) proxy reads h q =
      let before : Scheduler E W = record { timers = ts; event_proxy = proxy; reads = reads } in
      let next = repeat_timer clock before t in
      let q' : IsQueue ts = record { sorted = q.sorted.1; positive = q.positive.1 } in
      let f = repeat_timer-IsFired mono now before t q.positive.0 h q' in
      elim (Bool-cases (leb t.deadline now)) [
        | inl e ↦ inr (
          send_event next t.event,
          record {
            runs = rw e refl;
            queue = f.queue;
            read = f.read;
            fewer = rw (e, f.same_due) refl;
            events = rw (e, f.same_due, f.same_proxy) (append_assoc proxy _ _);
          },
        )
        | inr e ↦
            let later = leb→lt t.deadline now e in
            let all = AtLeast-trans {a = now + 1} ts (omega (arith, later)) q.sorted.0 in
            let pending : AtLeast (now + 1) (t ∷ ts) = (omega (arith, later), all) in
            inl (record {
              stops = rw e refl;
              none_due = filter-none now (t ∷ ts) pending;
              pending = pending;
            })
      ]

  fire-cases :
      IsMonotone clock
      → (now : ℕ) (self : Scheduler E W) → now ≤ clock self.reads
      → IsQueue self.timers
      → IsDone now self ⊎ ((next : Scheduler E W) × IsRound now self next)
  fire-cases mono now self h q = fire_parts mono now self.timers self.event_proxy self.reads h q

  done-IsUpdated :
      {now : ℕ} (self : Scheduler E W)
      → IsQueue self.timers
      → IsDone now self
      → IsUpdated now self self
  done-IsUpdated self q d = record {
    sent = rw d.none_due (sym (append-nil self.event_proxy));
    pending = d.pending;
    queue = q;
  }

  -- A round is paid for by one timer that was due.
  fire_all-IsUpdated :
      IsMonotone clock
      → (now fuel : ℕ) (self : Scheduler E W) → now ≤ clock self.reads
      → IsQueue self.timers
      → length (due now self.timers) ≤ fuel
      → (after : Scheduler E W) × (fire_all clock now fuel self ≡ some after)
        × IsUpdated now self after
  unfolding fire_all
  fire_all-IsUpdated mono now zero self h q enough = elim (fire-cases mono now self h q) [
    | inl d ↦ (self, rw (fire_all, d.stops) refl, done-IsUpdated self q d)
    | inr (next, r) ↦ absurd (omega (arith, enough, r.fewer))
  ]
  fire_all-IsUpdated mono now (suc n) self h q enough = elim (fire-cases mono now self h q) [
    | inl d ↦ (self, rw (fire_all, d.stops) refl, done-IsUpdated self q d)
    | inr (next, r) ↦
        let fewer : length (due now next.timers) ≤ n = omega (arith, enough, r.fewer) in
        let (after, runs, u) = fire_all-IsUpdated mono now n next r.read r.queue fewer in
        (
          after,
          rw (fire_all, r.runs) runs,
          record { sent = u.sent ∙ r.events; pending = u.pending; queue = u.queue },
        )
  ]

  -- With a monotone clock, a sorted queue and positive intervals for the timers that repeat,
  -- `update` ends after at most as many rounds as timers are due. It has then sent the events of
  -- those timers in the order of the queue, no timer of the queue is due any more, the queue is
  -- again sorted, and the result is the deadline of its first timer.
  pub update_lem :
      IsMonotone clock
      → (fuel : ℕ) (self : Scheduler E W) → IsQueue self.timers
      → length (due (clock self.reads) self.timers) ≤ fuel
      → (after : Scheduler E W) × (update clock fuel self
          ≡ some (front_deadline after.timers, after))
        × IsUpdated (clock self.reads) self after
  unfolding update
  update_lem mono fuel self q enough =
      let (after, runs, u) =
        fire_all-IsUpdated mono (clock self.reads) fuel (record self { reads = self.reads + 1 })
          (mono self.reads (self.reads + 1) (omega arith)) q enough in
      (
        after,
        rw (update, runs) refl,
        record { sent = u.sent; pending = u.pending; queue = u.queue },
      )
