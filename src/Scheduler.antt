-- ===== src/Scheduler.antt =====
-- velacritty/src/scheduler.rs: the timers of the application, in the order of their deadlines.
pub mod Queue
pub mod Update
pub mod Cancel
use velacritty.Prelude.{
  ℕ, zero, suc, ◌+◌, Bool, true, false, not, ◌&&◌, ◌||◌, Option, none, some, List, [], ◌∷◌, ◌++◌,
  ltb, leb, if◌then◌else◌, length,
}
use velacritty.Prelude.Iterators.{position, unwrap_or, insert_at, remove_at, filter, any}

pub data Topic : Type 0 where
  selection_scrolling delayed_search blink_cursor blink_timeout frame resize_debounce : Topic

-- Derived equality.
unfoldable pub eq_topic : Topic → Topic → Bool
eq_topic selection_scrolling selection_scrolling = true
eq_topic delayed_search delayed_search = true
eq_topic blink_cursor blink_cursor = true
eq_topic blink_timeout blink_timeout = true
eq_topic frame frame = true
eq_topic resize_debounce resize_debounce = true
eq_topic _ _ = false

-- The identifiers of windows are those of the crate winit.
pub record TimerId (W : Type 0) : Type 0 where
  pub topic : Topic
  pub window_id : W

-- Times are counted in nanoseconds, and an `Instant` from a fixed origin.
pub record Timer (E W : Type 0) : Type 0 where
  pub deadline : ℕ
  pub event : E
  pub id : TimerId W
  pub interval : Option ℕ

-- `event_proxy` has the events that were sent to the event loop, in their order, and `reads` counts
-- the calls of `Instant::now` so far.
pub record Scheduler (E W : Type 0) : Type 0 where
  pub timers : List (Timer E W)
  pub event_proxy : List E
  pub reads : ℕ

module _ {E W : Type 0} where
  unfoldable pub new : List E → ℕ → Scheduler E W
  new proxy reads = record { timers = []; event_proxy = proxy; reads = reads }

module _ {E W : Type 0} where
  -- The insert position in the schedule.
  unfoldable pub insert_index : ℕ → List (Timer E W) → ℕ
  insert_index deadline timers =
      unwrap_or (position (λ timer. ltb deadline timer.deadline) timers) (length timers)

  unfoldable pub enqueue : Timer E W → List (Timer E W) → List (Timer E W)
  enqueue timer timers = insert_at (insert_index timer.deadline timers) timer timers

module _ {E W : Type 0} where
  -- `send_event`, whose error is ignored.
  unfoldable pub send_event : Scheduler E W → E → Scheduler E W
  send_event self event = record self { event_proxy = self.event_proxy ++ (event ∷ []) }

  abbrev pub front_deadline : List (Timer E W) → Option ℕ
  front_deadline [] = none
  front_deadline (timer ∷ timers) = some timer.deadline

-- `clock k` is what the reading `k` of `Instant::now` gives.
module _ {E W : Type 0} (clock : ℕ → ℕ) where
  unfoldable pub schedule : Scheduler E W → E → ℕ → Bool → TimerId W → Scheduler E W
  schedule self event interval repeat timer_id = record self {
    timers =
        enqueue
          (record {
            deadline = clock self.reads + interval;
            event = event;
            id = timer_id;
            interval = if repeat then some interval else none;
          })
          self.timers;
    reads = self.reads + 1;
  }

  -- Automatically repeat the event.
  unfoldable pub repeat_timer : Scheduler E W → Timer E W → Scheduler E W
  repeat_timer self timer = elim timer.interval [
    | none ↦ self
    | some interval ↦ schedule self timer.event interval true timer.id
  ]

  -- A round of the loop of `update`, or `none` when its condition is false.
  unfoldable pub fire : ℕ → Scheduler E W → Option (Scheduler E W)
  fire now self = elim self.timers [
    | [] ↦ none
    | timer ∷ rest ↦
        if leb timer.deadline now
        then some (send_event (repeat_timer (record self { timers = rest }) timer) timer.event)
        else none
  ]

  -- `none` when the fuel runs out before the loop ends.
  unfoldable pub fire_all : ℕ → ℕ → Scheduler E W → Option (Scheduler E W)
  fire_all now zero self = elim (fire now self) [ none ↦ some self | some next ↦ none ]
  fire_all now (suc n) self = elim (fire now self) [
    | none ↦ some self
    | some next ↦ fire_all now n next
  ]

  unfoldable pub update : ℕ → Scheduler E W → Option (Option ℕ × Scheduler E W)
  update fuel self =
      elim (fire_all (clock self.reads) fuel (record self { reads = self.reads + 1 })) [
        | none ↦ none
        | some after ↦ some (front_deadline after.timers, after)
      ]

-- The comparison of window identifiers is a parameter.
module _ {W : Type 0} (eq_window : W → W → Bool) where
  unfoldable pub eq_id : TimerId W → TimerId W → Bool
  eq_id a b = eq_topic a.topic b.topic && eq_window a.window_id b.window_id

module _ {E W : Type 0} (eq_window : W → W → Bool) where
  unfoldable pub unschedule : Scheduler E W → TimerId W → Option (Timer E W) × Scheduler E W
  unschedule self id = elim (position (λ timer. eq_id eq_window timer.id id) self.timers) [
    | none ↦ (none, self)
    | some index ↦
        let (found, rest) = remove_at index self.timers in (found, record self { timers = rest })
  ]

  unfoldable pub scheduled : Scheduler E W → TimerId W → Bool
  scheduled self id = any (λ timer. eq_id eq_window timer.id id) self.timers

  unfoldable pub unschedule_window : Scheduler E W → W → Scheduler E W
  unschedule_window self window_id = record self {
    timers = filter (λ timer. not (eq_window timer.id.window_id window_id)) self.timers;
  }
