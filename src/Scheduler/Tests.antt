-- ===== src/Scheduler/Tests.antt =====
-- A short history of a scheduler.
use otchronos.Prelude.{[], ◌∷◌, ◌≤◌, ◌≡◌, refl, false, count, elem, erase, arith}
use otchronos.Scheduler.{
  Event, Scheduler, add_event, next_event_id, insert, stop_event, time_out, started, added,
  timed_out, Steps, done, next, holds, none_before,
}
use otchronos.Scheduler.History.{dispatched_once, stop_event_lem}

-- Two events, of which the second is due first.
abbrev busy : Scheduler
busy =
    (add_event (record { event_id = 0; cycle = 50 })
      (add_event (record { event_id = 0; cycle = 90 }) started).0).0

abbrev first : Scheduler
first = (add_event (record { event_id = 0; cycle = 90 }) started).0

busy-Steps : (t : Scheduler) → Steps busy t → Steps started t
unfolding add_event next_event_id insert elem
busy-Steps t r =
    next started first t (added started 90 (omega arith))
      (next first busy t (added first 50 (omega arith)) r)

abbrev due : Event
due = record { event_id = 2; cycle = 50 }

time_out_test : (time_out due busy).dispatched ≡ 2 ∷ []
unfolding time_out add_event next_event_id insert elem
time_out_test = refl

dispatched_once_example : count 2 (time_out due busy).dispatched ≤ 1
unfolding add_event next_event_id insert elem holds none_before
dispatched_once_example =
    dispatched_once (time_out due busy)
      (busy-Steps (time_out due busy) (
        next busy (time_out due busy) (time_out due busy) (timed_out busy due refl refl)
          (done (time_out due busy))))
      2

-- The first event is stopped, and the second one then comes due.
abbrev halted : Scheduler
halted = (stop_event 1 busy).0

stop_event_lem_example :
    (count 1 (time_out due halted).dispatched ≡ 0)
    × ((stop_event 1 (time_out due halted)).1 ≡ false)
unfolding stop_event add_event next_event_id insert elem erase holds none_before
stop_event_lem_example =
    stop_event_lem busy (time_out due halted) 1 (busy-Steps busy (done busy)) refl (
      next halted (time_out due halted) (time_out due halted) (timed_out halted due refl refl)
        (done (time_out due halted)))
