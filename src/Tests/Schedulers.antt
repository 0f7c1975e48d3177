-- ===== src/Tests/Schedulers.antt =====
use velacritty.Prelude.{
  ℕ, ◌+◌, ◌≡◌, ◌⊎◌, true, false, not, ◌&&◌, none, some, List, [], ◌∷◌, ◌++◌, ◌==◌, arith, refl, ap,
  ltb, leb, ==_iff,
}
use velacritty.Prelude.Iterators.{filter}
use velacritty.Scheduler.{
  TimerId, Timer, Scheduler, schedule, update, unschedule, scheduled, unschedule_window, fire_all,
  fire, send_event, repeat_timer, enqueue, insert_index, front_deadline, frame, blink_cursor,
  resize_debounce, eq_id,
}
use velacritty.Scheduler.Queue.{IsSorted}
use velacritty.Scheduler.Update.{IsMonotone, IsQueue, IsUpdated, update_lem}
use velacritty.Scheduler.Cancel.{IsFirst, schedule_lem, unschedule_lem, unschedule_window_lem}

-- Each reading of the clock is a nanosecond after the last one.
abbrev clock : ℕ → ℕ
clock k = 100 + k

clock-IsMonotone : IsMonotone clock
clock-IsMonotone i j h = omega (arith, h)

-- A blink every 50 ns, and a frame later.
abbrev blink : Timer ℕ ℕ
blink = record {
  deadline = 90;
  event = 1;
  id = record { topic = blink_cursor; window_id = 7 };
  interval = some 50;
}

abbrev late_frame : Timer ℕ ℕ
late_frame = record {
  deadline = 120;
  event = 2;
  id = record { topic = frame; window_id = 8 };
  interval = none;
}

abbrev two_timers : Scheduler ℕ ℕ
two_timers = record { timers = blink ∷ late_frame ∷ []; event_proxy = []; reads = 0 }

-- The blink fires once and goes behind the frame, which is the next timer.
update_runs :
    update clock 5 two_timers
    ≡ some (
      some 120,
      record {
        timers = late_frame ∷ record blink { deadline = 151 } ∷ [];
        event_proxy = 1 ∷ [];
        reads = 2;
      },
    )
unfolding update fire_all fire send_event repeat_timer schedule enqueue insert_index
update_runs = refl

two_timers-IsSorted : IsSorted two_timers.timers
two_timers-IsSorted = ((omega arith, tt), (tt, tt))

two_timers-IsQueue : IsQueue two_timers.timers
two_timers-IsQueue = record { sorted = two_timers-IsSorted; positive = (omega arith, (tt, tt)) }

update_lem_example :
    (after : Scheduler ℕ ℕ) × (update clock 5 two_timers
      ≡ some (front_deadline after.timers, after))
    × IsUpdated 100 two_timers after
update_lem_example = update_lem clock clock-IsMonotone 5 two_timers two_timers-IsQueue (omega arith)

abbrev resize_id : TimerId ℕ
resize_id = record { topic = resize_debounce; window_id = 8 }

abbrev resize_timer : Timer ℕ ℕ
resize_timer = record { deadline = 120; event = 3; id = resize_id; interval = none }

-- A timer with the same deadline as the frame goes behind it.
schedule_lem_example :
    IsSorted (schedule clock two_timers 3 20 false resize_id).timers
    × ((schedule clock two_timers 3 20 false resize_id).timers
        ≡ filter (λ t. leb t.deadline 120) two_timers.timers
          ++ (resize_timer ∷ filter (λ t. ltb 120 t.deadline) two_timers.timers))
schedule_lem_example = schedule_lem clock two_timers 3 20 false resize_id two_timers-IsSorted

eq_compatible : (a b c : ℕ) → (a == b) ≡ true → (a == c) ≡ (b == c)
eq_compatible a b c h = ap (λ x. x == c) ((==_iff a b).0 h)

unschedule_window_lem_example :
    scheduled ◌==◌ (unschedule_window ◌==◌ two_timers 7) blink.id
    ≡ not (7 == 7) && scheduled ◌==◌ two_timers blink.id
unschedule_window_lem_example = unschedule_window_lem ◌==◌ eq_compatible two_timers 7 blink.id

unschedule_lem_example :
    ((scheduled ◌==◌ two_timers late_frame.id ≡ false)
      × (unschedule ◌==◌ two_timers late_frame.id ≡ (none, two_timers)))
    ⊎ ((timer : Timer ℕ ℕ) × (rest : List (Timer ℕ ℕ)) × (unschedule ◌==◌ two_timers late_frame.id
          ≡ (some timer, record two_timers { timers = rest }))
        × IsFirst (λ t. eq_id ◌==◌ t.id late_frame.id) two_timers.timers timer rest)
unschedule_lem_example = unschedule_lem ◌==◌ two_timers late_frame.id
