-- ===== src/Scheduler/History.antt =====
-- What holds of a scheduler after any steps: no task is dispatched twice, and none that was stopped.
use otchronos.Prelude.{
  ℕ, ◌+◌, ◌-◌, ◌≤◌, ◌≡◌, true, false, ◌==◌, List, [], ◌∷◌, count, arith, count-cons, count-erase,
  elem-count, count-nil, from_bool,
}
use otchronos.Scheduler.{
  Event, Scheduler, next_event_id, insert, add_event, stop_event, erase_event, time_out, stop,
  shutdown, started, Step, added, stopped, timed_out, closing, shut, Steps, done, next,
}

-- How many tasks of the queue have an id.
unfoldable pub waiting : ℕ → List Event → ℕ
waiting id [] = 0
waiting id (e ∷ es) = from_bool (e.event_id == id) + waiting id es

waiting-erase_event :
    (a b : ℕ) (es : List Event) → waiting a (erase_event b es) ≡ waiting a es - from_bool (b == a)
unfolding waiting erase_event
waiting-erase_event a b [] = omega arith
waiting-erase_event a b (e ∷ es) = ground (arith, waiting-erase_event a b es)

-- An id is active or dispatched once at most, an active one has its task in the queue, and all have
-- been given out.
pub record IsOrderly (s : Scheduler) : Type 0 where
  pub once : (id : ℕ) → count id s.event_ids + count id s.dispatched ≤ 1
  pub queued : (id : ℕ) → count id s.event_ids ≤ waiting id s.event_list
  pub given : (id : ℕ) → 1 ≤ count id s.event_ids + count id s.dispatched → id ≤ s.last_event_id

-- An id that is no longer active, and not one to come.
pub record IsOver (id n : ℕ) (s : Scheduler) : Type 0 where
  pub inactive : count id s.event_ids ≡ 0
  pub old : id ≤ s.last_event_id
  pub times : count id s.dispatched ≡ n

Step-IsOrderly : (s t : Scheduler) → Step s t → IsOrderly s → IsOrderly t
unfolding add_event stop_event time_out stop shutdown insert next_event_id waiting
Step-IsOrderly _ _ (added s cycle f) v = record {
  once = λ id. ground (
    arith,
    f,
    v.once id,
    v.given id,
    elem-count (s.last_event_id + 1) s.event_ids,
    count-cons id (s.last_event_id + 1) s.event_ids,
  );
  queued = λ id. ground (arith, f, v.queued id, count-cons id (s.last_event_id + 1) s.event_ids);
  given =
      λ id. λ h. ground (arith, f, h, v.given id, count-cons id (s.last_event_id + 1) s.event_ids);
}
Step-IsOrderly _ _ (stopped s id) v = record {
  once = λ a. ground (arith, v.once a, count-erase a id s.event_ids);
  queued = λ a. ground (arith, v.queued a, count-erase a id s.event_ids);
  given = λ a h. ground (arith, h, v.given a, count-erase a id s.event_ids);
}
Step-IsOrderly _ _ (timed_out s e h k) v = record {
  once = λ a. ground (
    arith,
    v.once a,
    v.once e.event_id,
    count-erase a e.event_id s.event_ids,
    elem-count e.event_id s.event_ids,
    count-cons a e.event_id s.dispatched,
  );
  queued = λ a. ground (
    arith,
    v.queued a,
    v.once a,
    count-erase a e.event_id s.event_ids,
    waiting-erase_event a e.event_id s.event_list,
  );
  given = λ a h. ground (
    arith,
    h,
    v.given a,
    count-erase a e.event_id s.event_ids,
    elem-count e.event_id s.event_ids,
    count-cons a e.event_id s.dispatched,
  );
}
Step-IsOrderly _ _ (closing s) v = record { once = v.once; queued = v.queued; given = v.given }
Step-IsOrderly _ _ (shut s) v = record {
  once = λ a. ground (arith, v.once a, count-nil a);
  queued = λ a. ground (arith, count-nil a);
  given = λ a h. ground (arith, h, v.given a, count-nil a);
}

-- After any steps of a started scheduler, as long as its ids have not wrapped: no id is dispatched
-- twice nor active again after it, an active id has its task in the queue, and all ids have been
-- given out.
pub Steps-IsOrderly : (s t : Scheduler) → Steps s t → IsOrderly s → IsOrderly t
Steps-IsOrderly _ _ (done s) v = v
Steps-IsOrderly _ _ (next s t u a b) v = Steps-IsOrderly t u b (Step-IsOrderly s t a v)

started-IsOrderly : IsOrderly started
unfolding count waiting
started-IsOrderly = record {
  once = λ a. omega arith;
  queued = λ a. omega arith;
  given = λ a h. absurd (omega (arith, h));
}

Step-IsOver : (id n : ℕ) (s t : Scheduler) → Step s t → IsOver id n s → IsOver id n t
unfolding add_event stop_event time_out stop shutdown insert next_event_id
Step-IsOver id n _ _ (added s cycle f) v = record {
  inactive = ground (arith, f, v.inactive, v.old, count-cons id (s.last_event_id + 1) s.event_ids);
  old = ground (arith, f, v.old);
  times = ground (arith, f, v.times);
}
Step-IsOver id n _ _ (stopped s a) v = record {
  inactive = ground (arith, v.inactive, count-erase id a s.event_ids);
  old = ground (arith, v.old);
  times = ground (arith, v.times);
}
Step-IsOver id n _ _ (timed_out s e h k) v = record {
  inactive = ground (arith, v.inactive, count-erase id e.event_id s.event_ids);
  old = ground (arith, v.old);
  times = ground (
    arith,
    v.times,
    v.inactive,
    elem-count e.event_id s.event_ids,
    count-cons id e.event_id s.dispatched,
  );
}
Step-IsOver id n _ _ (closing s) v = record { inactive = v.inactive; old = v.old; times = v.times }
Step-IsOver id n _ _ (shut s) v = record { inactive = count-nil id; old = v.old; times = v.times }

Steps-IsOver : (id n : ℕ) (s t : Scheduler) → Steps s t → IsOver id n s → IsOver id n t
Steps-IsOver id n _ _ (done s) v = v
Steps-IsOver id n _ _ (next s t u a b) v = Steps-IsOver id n t u b (Step-IsOver id n s t a v)

stopped-IsOver :
    (id : ℕ) (s : Scheduler)
    → IsOrderly s
    → (stop_event id s).1 ≡ true
    → IsOver id 0 (stop_event id s).0
unfolding stop_event
stopped-IsOver id s v h = record {
  inactive = ground (arith, h, v.once id, count-erase id id s.event_ids);
  old = ground (arith, h, v.given id, elem-count id s.event_ids);
  times = ground (arith, h, v.once id, elem-count id s.event_ids);
}

-- No task of a started scheduler is dispatched twice, whatever steps it takes, as long as its ids
-- have not wrapped.
pub dispatched_once : (t : Scheduler) → Steps started t → (id : ℕ) → count id t.dispatched ≤ 1
dispatched_once t r id = omega (arith, (Steps-IsOrderly started t r started-IsOrderly).once id)

-- After any steps of a started scheduler, where `stopEvent` answers that it has stopped an event,
-- and after any steps behind it, as long as the ids have not wrapped: the event's task has not
-- been dispatched, and the event cannot be stopped again.
pub stop_event_lem :
    (s t : Scheduler) (id : ℕ)
    → Steps started s
    → (stop_event id s).1 ≡ true
    → Steps (stop_event id s).0 t
    → (count id t.dispatched ≡ 0) × ((stop_event id t).1 ≡ false)
unfolding stop_event
stop_event_lem s t id a h b =
    let v =
      Steps-IsOver id 0 (stop_event id s).0 t b
        (stopped-IsOver id s (Steps-IsOrderly started s a started-IsOrderly) h) in
    (v.times, ground (arith, v.inactive, elem-count id t.event_ids))
