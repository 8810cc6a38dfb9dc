-- ===== src/Dispatcher/Order.antt =====
-- Which tasks the dispatcher takes, and in which order it gets them done.
use mathlib.Core.List.{append_assoc, append-nil}
use otchronos.Prelude.{
  ℕ, ◌≡◌, refl, sym, ◌∙◌, ap, Bool, true, false, not, ◌&&◌, ◌||◌, if◌then◌else◌, List, [], ◌∷◌,
  ◌++◌, map, arith,
}
use otchronos.Dispatcher.{
  DispatcherState, state_running, state_closing, state_terminated, is_running, Phase, looping,
  locking, asleep, woken, ended, executing, Dispatcher, add_task, rouse, notify, take, advance,
  stop, Event, adding, notifying, stirring, stopping, shutting_down, advancing, call, play,
}
use otchronos.Dispatcher.Drain.{current, is_ended}

abbrev pub task_of : ℕ × Bool → ℕ
task_of (task, executed) = task

-- All tasks that the dispatcher has taken, in the order of their turns.
abbrev pub taken : Dispatcher → List ℕ
taken s = map task_of s.finished ++ (current s.phase ++ s.task_list)

-- Tasks are added at the end, and the dispatcher is not shut down.
unfoldable pub is_plain : Event → Bool
is_plain (adding task push_front) = not push_front
is_plain shutting_down = false
is_plain _ = true

-- The task that is taken when it is added.
unfoldable pub accepted : Event → Dispatcher → List ℕ
accepted (adding task push_front) s = if is_running s.thread_state then task ∷ [] else []
accepted _ s = []

unfoldable pub all_accepted : List Event → Dispatcher → List ℕ
unfolding accepted
all_accepted [] s = []
all_accepted (e ∷ es) s = accepted e s ++ all_accepted es (call e s)

unfoldable pub all_plain : List Event → Bool
unfolding is_plain
all_plain [] = true
all_plain (e ∷ es) = is_plain e && all_plain es

map-append :
    (f : List (ℕ × Bool)) (g : List (ℕ × Bool))
    → map task_of (f ++ g) ≡ map task_of f ++ map task_of g
map-append [] g = refl
map-append (x ∷ f) g = ap (λ r. task_of x ∷ r) (map-append f g)

advance_phase :
    (b : Bool) (p : Phase) (ts : List ℕ) (st : DispatcherState) (n : ℕ) (f : List (ℕ × Bool))
    → let s : Dispatcher = record {
      task_list = ts;
      thread_state = st;
      phase = p;
      signals = n;
      finished = f;
    } in
      taken (advance b s) ≡ taken s
unfolding advance take
advance_phase b looping ts st n f = ground arith
advance_phase b locking [] st n f = refl
advance_phase b locking (t ∷ ts) st n f = ground arith
advance_phase b asleep ts st n f = refl
advance_phase b woken [] st n f = refl
advance_phase b woken (t ∷ ts) st n f = ground arith
advance_phase b ended ts st n f = refl
advance_phase b (executing t) ts st n f =
    rw (map-append f ((t, not b) ∷ [])) (append_assoc (map task_of f) (t ∷ []) ts)

current-rouse : (p : Phase) → current (rouse p) ≡ current p
current-rouse looping = refl
current-rouse locking = refl
current-rouse asleep = refl
current-rouse woken = refl
current-rouse ended = refl
current-rouse (executing t) = refl

taken-notify : (s : Dispatcher) → taken (notify s) ≡ taken s
unfolding notify
taken-notify s = ground (arith, current-rouse s.phase)

taken-add_task :
    (t : ℕ) (ts : List ℕ) (st : DispatcherState) (p : Phase) (n : ℕ) (f : List (ℕ × Bool))
    → let s : Dispatcher = record {
      task_list = ts;
      thread_state = st;
      phase = p;
      signals = n;
      finished = f;
    } in
      taken (add_task t false s) ≡ taken s ++ accepted (adding t false) s
unfolding add_task accepted
taken-add_task t ts state_running p n f =
    let done = map task_of f in
    ap (λ r. done ++ r) (sym (append_assoc (current p) ts (t ∷ [])))
    ∙ sym (append_assoc done (current p ++ ts) (t ∷ []))
taken-add_task t ts state_closing p n f = sym (append-nil _)
taken-add_task t ts state_terminated p n f = sym (append-nil _)

taken-call :
    (e : Event) (s : Dispatcher) → is_plain e ≡ true → taken (call e s) ≡ taken s ++ accepted e s
unfolding call add_task stop is_plain accepted
taken-call (adding task true) s h = absurd (cc h)
taken-call (adding task false) s h =
    taken-add_task task s.task_list s.thread_state s.phase s.signals s.finished
taken-call notifying s h = taken-notify s ∙ sym (append-nil (taken s))
taken-call stirring s h =
    ap (λ c. map task_of s.finished ++ (c ++ s.task_list)) (current-rouse s.phase)
    ∙ sym (append-nil (taken s))
taken-call stopping s h = sym (append-nil (taken s))
taken-call shutting_down s h = absurd (cc h)
taken-call (advancing b) s h =
    advance_phase b s.phase s.task_list s.thread_state s.signals s.finished
    ∙ sym (append-nil (taken s))

-- Where tasks are only added at the end, and the dispatcher is not shut down, the tasks that are done
-- with, the one being executed and those of the list are, in this order, what they were before and then
-- the tasks that have been accepted since, in the order in which they were added: no task is lost, done
-- with twice, or overtaken.
pub taken-play :
    (es : List Event) (s : Dispatcher)
    → all_plain es ≡ true
    → taken (play es s) ≡ taken s ++ all_accepted es s
unfolding play all_accepted all_plain
taken-play [] s h = sym (append-nil (taken s))
taken-play (e ∷ es) s h =
    taken-play es (call e s) (ground (arith, h))
    ∙ ap (λ r. r ++ all_accepted es (call e s)) (taken-call e s (ground (arith, h)))
    ∙ append_assoc (taken s) (accepted e s) (all_accepted es (call e s))

abbrev pub is_closing : DispatcherState → Bool
is_closing state_closing = true
is_closing _ = false

-- The dispatcher is stopped, and its thread has not ended.
unfoldable pub is_stopped : Dispatcher → Bool
unfolding is_ended
is_stopped s = is_closing s.thread_state && not (is_ended s.phase)

unfoldable pub is_shutdown : Event → Bool
is_shutdown shutting_down = true
is_shutdown _ = false

unfoldable pub has_shutdown : List Event → Bool
unfolding is_shutdown
has_shutdown [] = false
has_shutdown (e ∷ es) = is_shutdown e || has_shutdown es

stopped_step :
    (e : Event) (s : Dispatcher)
    → is_stopped s ≡ true
    → is_shutdown e ≡ false
    → (is_stopped (call e s) ≡ true) × (taken (call e s) ≡ taken s)
unfolding call is_stopped is_ended add_task notify advance take stop is_shutdown
stopped_step (adding task push_front) s h k = (ground (arith, h), ground (arith, h))
stopped_step notifying s h k = (ground (arith, h), taken-notify s)
stopped_step stirring s h k = (
  ground (arith, h),
  ap (λ c. map task_of s.finished ++ (c ++ s.task_list)) (current-rouse s.phase),
)
stopped_step stopping s h k = (ground (arith, h), refl)
stopped_step shutting_down s h k = absurd (cc k)
stopped_step (advancing b) s h k =
    (ground (arith, h), advance_phase b s.phase s.task_list s.thread_state s.signals s.finished)

-- Once the dispatcher is stopped, its thread goes on until `shutdown` is called and does not end before,
-- and from then on no task is taken: those that are done with, being executed or on the list stay the
-- same altogether, whatever is added. A task that is to call `shutdown` and is added after `stop` is
-- refused like any other.
pub is_stopped-play :
    (es : List Event) (s : Dispatcher)
    → is_stopped s ≡ true
    → has_shutdown es ≡ false
    → (is_stopped (play es s) ≡ true) × (taken (play es s) ≡ taken s)
unfolding play has_shutdown
is_stopped-play [] s h k = (h, refl)
is_stopped-play (e ∷ es) s h k =
    let (goes_on, same) = stopped_step e s h (ground (arith, k)) in
    let (still, all) = is_stopped-play es (call e s) goes_on (ground (arith, k)) in
    (still, all ∙ same)
