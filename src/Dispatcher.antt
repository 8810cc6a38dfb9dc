-- ===== src/Dispatcher.antt =====
-- The dispatcher, tasks.h and tasks.cpp: a thread that executes the tasks which others put on a list.
-- What a task does is not modelled, but it may add tasks while it is executed. What holds the lock
-- happens at once; waiting for the signal gives the lock back. Whether a task has expired is an
-- answer of the clock when it is to be executed.
mod Wakeup
mod Drain
mod Order
mod Tests
use otchronos.Prelude.{
  ℕ, zero, suc, ◌+◌, ◌≡◌, Bool, true, false, not, ◌&&◌, if◌then◌else◌, List, [], ◌∷◌, ◌++◌, map,
  is_empty,
}

-- `DispatcherState`.
pub data DispatcherState : Type 0 where
  state_running state_closing state_terminated : DispatcherState

abbrev pub is_running : DispatcherState → Bool
is_running state_running = true
is_running _ = false

abbrev pub is_terminated : DispatcherState → Bool
is_terminated state_terminated = true
is_terminated _ = false

-- Where the thread is: at the test of its loop, about to lock, waiting for the signal, about to lock
-- again after the signal, with a task to execute, or at its end.
pub data Phase : Type 0 where
  looping locking asleep woken ended : Phase
  executing : ℕ → Phase

-- `signals` counts the calls of `notify_one` that are still to come, `finished` has the tasks that
-- are done with, the first one first, and whether they were executed.
pub record Dispatcher : Type 0 where
  pub task_list : List ℕ
  pub thread_state : DispatcherState
  pub phase : Phase
  pub signals : ℕ
  pub finished : List (ℕ × Bool)

-- `Dispatcher::Dispatcher` and `Dispatcher::start`.
abbrev pub start : Dispatcher
start = record {
  task_list = [];
  thread_state = state_running;
  phase = looping;
  signals = 0;
  finished = [];
}

abbrev pub put_phase : Phase → Dispatcher → Dispatcher
put_phase p s = record {
  task_list = s.task_list;
  thread_state = s.thread_state;
  phase = p;
  signals = s.signals;
  finished = s.finished;
}

-- `Dispatcher::addTask` as far as it holds the lock.
unfoldable pub add_task : ℕ → Bool → Dispatcher → Dispatcher
add_task task push_front s =
    if is_running s.thread_state
    then record {
      task_list = if push_front then task ∷ s.task_list else s.task_list ++ task ∷ [];
      thread_state = s.thread_state;
      phase = s.phase;
      signals = if is_empty s.task_list then suc s.signals else s.signals;
      finished = s.finished;
    }
    else s

abbrev pub rouse : Phase → Phase
rouse asleep = woken
rouse p = p

-- The call of `notify_one`.
unfoldable pub notify : Dispatcher → Dispatcher
notify s = elim s.signals [
  | zero ↦ s
  | suc n ↦ record {
    task_list = s.task_list;
    thread_state = s.thread_state;
    phase = rouse s.phase;
    signals = n;
    finished = s.finished;
  }
]

-- The first task is taken off, if there is one and the thread is to go on.
unfoldable pub take : Dispatcher → Dispatcher
take s = elim s.task_list [
  | [] ↦ put_phase looping s
  | task ∷ rest ↦ if is_terminated s.thread_state then put_phase looping s else record {
    task_list = rest;
    thread_state = s.thread_state;
    phase = executing task;
    signals = s.signals;
    finished = s.finished;
  }
]

-- The next step of `Dispatcher::dispatcherThread`, which does not go on while it waits.
unfoldable pub advance : Bool → Dispatcher → Dispatcher
unfolding take
advance has_expired s = elim s.phase [
  | looping ↦ if is_terminated s.thread_state then put_phase ended s else put_phase locking s
  | locking ↦ if is_empty s.task_list then put_phase asleep s else take s
  | asleep ↦ s
  | woken ↦ take s
  | ended ↦ s
  | executing task ↦ record {
    task_list = s.task_list;
    thread_state = s.thread_state;
    phase = looping;
    signals = s.signals;
    finished = s.finished ++ (task, not has_expired) ∷ [];
  }
]

-- `Dispatcher::stop`.
unfoldable pub stop : Dispatcher → Dispatcher
stop s = record {
  task_list = s.task_list;
  thread_state = state_closing;
  phase = s.phase;
  signals = s.signals;
  finished = s.finished;
}

-- `Dispatcher::flush`, where no task adds another.
unfoldable pub flush : Dispatcher → Dispatcher
flush s = record {
  task_list = [];
  thread_state = s.thread_state;
  phase = s.phase;
  signals = s.signals;
  finished = s.finished ++ map (λ task. (task, true)) s.task_list;
}

-- `Dispatcher::shutdown`.
unfoldable pub shutdown : Dispatcher → Dispatcher
unfolding flush
shutdown s = flush record {
  task_list = s.task_list;
  thread_state = state_terminated;
  phase = s.phase;
  signals = s.signals;
  finished = s.finished;
}

-- What may happen next, in any order. A wait may also end without a signal.
pub data Event : Type 0 where
  adding : ℕ → Bool → Event
  notifying stirring stopping shutting_down : Event
  advancing : Bool → Event

unfoldable pub call : Event → Dispatcher → Dispatcher
unfolding add_task notify advance stop shutdown
call (adding task push_front) s = add_task task push_front s
call notifying s = notify s
call stirring s = put_phase (rouse s.phase) s
call stopping s = stop s
call shutting_down s = shutdown s
call (advancing has_expired) s = advance has_expired s

unfoldable pub play : List Event → Dispatcher → Dispatcher
unfolding call
play [] s = s
play (e ∷ es) s = play es (call e s)
