-- ===== src/Scheduler.antt =====
-- The scheduler, scheduler.cpp and scheduler.h, which hands a task to the dispatcher when its time
-- has come. All operations hold the lock, so that they happen one after another. An event stands
-- for its task, and is told by its id as the source tells it by its pointer.
mod History
mod Tests
use otchronos.Prelude.{
  ℕ, ◌+◌, ◌%◌, ◌^◌, ◌<◌, ◌≡◌, Bool, true, false, ◌==◌, ◌||◌, ◌&&◌, if◌then◌else◌, leb, List, [],
  ◌∷◌, map, elem, erase,
}

-- `SchedulerTask`: its id, 0 where it has none yet, and the time at which it is due.
pub record Event : Type 0 where
  pub event_id : ℕ
  pub cycle : ℕ

-- `SchedulerState`.
pub data SchedulerState : Type 0 where
  state_running state_closing state_terminated : SchedulerState

abbrev pub is_running : SchedulerState → Bool
is_running state_running = true
is_running _ = false

abbrev pub is_terminated : SchedulerState → Bool
is_terminated state_terminated = true
is_terminated _ = false

-- `m_eventIds` is a set, as a list; `dispatched` has the ids of the tasks that went to the
-- dispatcher, the last one first.
pub record Scheduler : Type 0 where
  pub last_event_id : ℕ
  pub event_list : List Event
  pub event_ids : List ℕ
  pub thread_state : SchedulerState
  pub dispatched : List ℕ

-- `++m_lastEventId`, and 1 where it wraps.
unfoldable pub next_event_id : ℕ → ℕ
next_event_id last = let n = (last + 1) % 2 ^ 32 in if n == 0 then 1 else n

-- `std::unordered_set::insert`.
unfoldable pub insert : ℕ → List ℕ → List ℕ
insert a xs = if elem a xs then xs else a ∷ xs

-- `Scheduler::addEvent`. The id 0 says that the task is not taken.
unfoldable pub add_event : Event → Scheduler → Scheduler × ℕ
add_event e s =
    if is_running s.thread_state
    then (let last = if e.event_id == 0 then next_event_id s.last_event_id else s.last_event_id in
        let id = if e.event_id == 0 then last else e.event_id in
        (
          record {
            last_event_id = last;
            event_list = record { event_id = id; cycle = e.cycle } ∷ s.event_list;
            event_ids = insert id s.event_ids;
            thread_state = s.thread_state;
            dispatched = s.dispatched;
          },
          id,
        ))
    else (s, 0)

-- `Scheduler::stopEvent`.
unfoldable pub stop_event : ℕ → Scheduler → Scheduler × Bool
stop_event id s =
    if id == 0
    then (s, false)
    else if elem id s.event_ids
    then (
      record {
        last_event_id = s.last_event_id;
        event_list = s.event_list;
        event_ids = erase id s.event_ids;
        thread_state = s.thread_state;
        dispatched = s.dispatched;
      },
      true,
    )
    else (s, false)

-- `m_eventList.pop()`, of the event of this id.
unfoldable pub erase_event : ℕ → List Event → List Event
erase_event id [] = []
erase_event id (e ∷ es) = if e.event_id == id then es else e ∷ erase_event id es

-- One round of `Scheduler::schedulerThread` whose wait for the top event `e` has timed out.
unfoldable pub time_out : Event → Scheduler → Scheduler
time_out e s = if is_terminated s.thread_state then s else record {
  last_event_id = s.last_event_id;
  event_list = erase_event e.event_id s.event_list;
  event_ids = erase e.event_id s.event_ids;
  thread_state = s.thread_state;
  dispatched = if elem e.event_id s.event_ids then e.event_id ∷ s.dispatched else s.dispatched;
}

-- `Scheduler::stop`.
unfoldable pub stop : Scheduler → Scheduler
stop s = record {
  last_event_id = s.last_event_id;
  event_list = s.event_list;
  event_ids = s.event_ids;
  thread_state = state_closing;
  dispatched = s.dispatched;
}

-- `Scheduler::shutdown`.
unfoldable pub shutdown : Scheduler → Scheduler
shutdown s = record {
  last_event_id = s.last_event_id;
  event_list = [];
  event_ids = [];
  thread_state = state_terminated;
  dispatched = s.dispatched;
}

-- `Scheduler::Scheduler` and `Scheduler::start`.
abbrev pub started : Scheduler
started = record {
  last_event_id = 0;
  event_list = [];
  event_ids = [];
  thread_state = state_running;
  dispatched = [];
}

-- Whether the event stands in the queue and none is due before it: which of several that are due
-- at the same time is on top is the queue's choice.
unfoldable pub holds : Event → List Event → Bool
holds e [] = false
holds e (x ∷ xs) = (x.event_id == e.event_id && x.cycle == e.cycle) || holds e xs

unfoldable pub none_before : Event → List Event → Bool
none_before e [] = true
none_before e (x ∷ xs) = leb e.cycle x.cycle && none_before e xs

-- What happens to a scheduler, as long as its ids have not wrapped.
pub data Step : Scheduler → Scheduler → Type 0 where
  added :
      (s : Scheduler) (cycle : ℕ)
      → s.last_event_id + 1 < 2 ^ 32
      → Step s (add_event (record { event_id = 0; cycle = cycle }) s).0
  stopped : (s : Scheduler) (id : ℕ) → Step s (stop_event id s).0
  timed_out :
      (s : Scheduler) (e : Event)
      → holds e s.event_list ≡ true
      → none_before e s.event_list ≡ true
      → Step s (time_out e s)
  closing : (s : Scheduler) → Step s (stop s)
  shut : (s : Scheduler) → Step s (shutdown s)

pub data Steps : Scheduler → Scheduler → Type 0 where
  done : (s : Scheduler) → Steps s s
  next : (s t u : Scheduler) → Step s t → Steps t u → Steps s u
