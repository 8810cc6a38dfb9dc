-- ===== src/Dispatcher/Wakeup.antt =====
-- The signal is not lost: the thread of the dispatcher does not sleep over its tasks.
use otchronos.Prelude.{◌≡◌, Bool, true, false, not, ◌||◌, ◌==◌, List, [], ◌∷◌, is_empty, arith}
use otchronos.Dispatcher.{
  Phase, asleep, Dispatcher, add_task, notify, take, advance, stop, flush, shutdown, Event, adding,
  notifying, stirring, stopping, shutting_down, advancing, call, play,
}

abbrev pub is_asleep : Phase → Bool
is_asleep asleep = true
is_asleep _ = false

-- If the thread sleeps, there is no task or a signal is to come.
unfoldable pub is_attended : Dispatcher → Bool
is_attended s = not (is_asleep s.phase) || (is_empty s.task_list || not (s.signals == 0))

is_attended-call :
    (e : Event) (s : Dispatcher) → is_attended s ≡ true → is_attended (call e s) ≡ true
unfolding call add_task notify advance take stop shutdown flush is_attended
is_attended-call (adding task push_front) s h = ground (arith, h)
is_attended-call notifying s h = ground (arith, h)
is_attended-call stirring s h = ground (arith, h)
is_attended-call stopping s h = h
is_attended-call shutting_down s h = ground (arith, h)
is_attended-call (advancing has_expired) s h = ground (arith, h)

-- If the thread does not sleep while there is a task, unless a signal is to come that wakes it, then
-- this stays so, in whatever order tasks are added, signals come, the thread goes on and the dispatcher is
-- stopped or shut down.
pub is_attended-play :
    (es : List Event) (s : Dispatcher) → is_attended s ≡ true → is_attended (play es s) ≡ true
unfolding play
is_attended-play [] s h = h
is_attended-play (e ∷ es) s h = is_attended-play es (call e s) (is_attended-call e s h)
