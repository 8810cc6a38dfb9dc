-- ===== src/Dispatcher/Drain.antt =====
-- The thread of the dispatcher gets its tasks done.
use mathlib.Core.List.{append_assoc, append-nil}
use otchronos.Prelude.{
  ℕ, zero, suc, ◌-◌, ◌*◌, ◌≤◌, ◌≡◌, refl, sym, ◌∙◌, Bool, true, false, not, ◌&&◌, List, [], ◌∷◌,
  ◌++◌, map, length, arith,
}
use otchronos.Dispatcher.{
  DispatcherState, is_terminated, Phase, looping, locking, asleep, woken, ended, executing,
  Dispatcher, notify, take, advance, start, play, Event,
}
use otchronos.Dispatcher.Wakeup.{is_attended, is_attended-play}

-- What becomes of a task when it is its turn.
abbrev pub outcome : (ℕ → Bool) → ℕ → ℕ × Bool
outcome has_expired task = (task, not (has_expired task))

-- The next step of the thread, or the signal that it waits for.
unfoldable pub step : (ℕ → Bool) → Dispatcher → Dispatcher
unfolding advance notify
step has_expired s = elim s.phase [
  | asleep ↦ notify s
  | executing task ↦ advance (has_expired task) s
  | looping ↦ advance false s
  | locking ↦ advance false s
  | woken ↦ advance false s
  | ended ↦ s
]

unfoldable pub steps : (ℕ → Bool) → ℕ → Dispatcher → Dispatcher
unfolding step
steps has_expired zero s = s
steps has_expired (suc n) s = steps has_expired n (step has_expired s)

-- The task that is being executed.
abbrev pub current : Phase → List ℕ
current (executing task) = task ∷ []
current _ = []

-- Tasks that are done with, and those that are yet to be, in the order of their turns.
pub total : (ℕ → Bool) → Dispatcher → List (ℕ × Bool)
total has_expired s = s.finished ++ map (outcome has_expired) (current s.phase ++ s.task_list)

-- How many steps it takes at most.
left_from : Phase → ℕ → ℕ
left_from (executing task) n = suc (3 * n)
left_from looping n = 3 * n
left_from asleep n = 3 * n
left_from ended n = 3 * n
left_from locking n = 3 * n - 1
left_from woken n = 3 * n - 1

left : Dispatcher → ℕ
left s = left_from s.phase (length s.task_list)

unfoldable pub is_ended : Phase → Bool
is_ended ended = true
is_ended _ = false

-- The thread is there and goes on, and does not sleep over its tasks.
unfoldable pub is_active : Dispatcher → Bool
unfolding is_ended is_attended
is_active s = (not (is_ended s.phase) && not (is_terminated s.thread_state)) && is_attended s

is_active-step : (h : ℕ → Bool) (s : Dispatcher) → is_active s ≡ true → is_active (step h s) ≡ true
unfolding step is_active take
is_active-step h s a = ground (arith, a)

left_phase :
    (h : ℕ → Bool) (p : Phase) (ts : List ℕ) (st : DispatcherState) (n : ℕ) (f : List (ℕ × Bool))
    → let s : Dispatcher = record {
      task_list = ts;
      thread_state = st;
      phase = p;
      signals = n;
      finished = f;
    } in
      is_active s ≡ true → left (step h s) ≤ left s - 1
unfolding step is_active is_attended take left left_from
left_phase h looping ts st n f a = ground (arith, a)
left_phase h locking [] st n f a = omega arith
left_phase h locking (t ∷ ts) st n f a = ground (arith, a)
left_phase h asleep [] st zero f a = omega arith
left_phase h asleep (t ∷ ts) st zero f a = ground (arith, a)
left_phase h asleep ts st (suc n) f a = omega arith
left_phase h woken [] st n f a = omega arith
left_phase h woken (t ∷ ts) st n f a = ground (arith, a)
left_phase h ended ts st n f a = ground (arith, a)
left_phase h (executing t) ts st n f a = omega arith

left-step : (h : ℕ → Bool) (s : Dispatcher) → is_active s ≡ true → left (step h s) ≤ left s - 1
left-step h s a = left_phase h s.phase s.task_list s.thread_state s.signals s.finished a

total_phase :
    (h : ℕ → Bool) (p : Phase) (ts : List ℕ) (st : DispatcherState) (n : ℕ) (f : List (ℕ × Bool))
    → let s : Dispatcher = record {
      task_list = ts;
      thread_state = st;
      phase = p;
      signals = n;
      finished = f;
    } in
      is_active s ≡ true → total h (step h s) ≡ total h s
unfolding step is_active take total
total_phase h looping ts st n f a = ground (arith, a)
total_phase h locking [] st n f a = refl
total_phase h locking (t ∷ ts) st n f a = ground (arith, a)
total_phase h asleep ts st zero f a = refl
total_phase h asleep ts st (suc n) f a = refl
total_phase h woken [] st n f a = refl
total_phase h woken (t ∷ ts) st n f a = ground (arith, a)
total_phase h ended ts st n f a = refl
total_phase h (executing t) ts st n f a = append_assoc f (outcome h t ∷ []) (map (outcome h) ts)

total-step : (h : ℕ → Bool) (s : Dispatcher) → is_active s ≡ true → total h (step h s) ≡ total h s
total-step h s a = total_phase h s.phase s.task_list s.thread_state s.signals s.finished a

rest_empty :
    (h : ℕ → Bool) (p : Phase) (ts : List ℕ)
    → is_ended p ≡ false
    → left_from p (length ts) ≤ 0
    → map (outcome h) (current p ++ ts) ≡ []
unfolding left_from is_ended
rest_empty h looping [] a e = refl
rest_empty h locking [] a e = refl
rest_empty h asleep [] a e = refl
rest_empty h woken [] a e = refl
rest_empty h looping (t ∷ ts) a e = absurd (omega (arith, e))
rest_empty h locking (t ∷ ts) a e = absurd (omega (arith, e))
rest_empty h asleep (t ∷ ts) a e = absurd (omega (arith, e))
rest_empty h woken (t ∷ ts) a e = absurd (omega (arith, e))
rest_empty h ended ts a e = absurd (cc a)
rest_empty h (executing t) ts a e = absurd (omega (arith, e))

left-total :
    (h : ℕ → Bool) (s : Dispatcher) → is_active s ≡ true → left s ≤ 0 → s.finished ≡ total h s
unfolding left total is_active
left-total h s a e =
    rw (rest_empty h s.phase s.task_list (ground (arith, a)) e) (sym (append-nil s.finished))

steps-total :
    (h : ℕ → Bool) (n : ℕ) (s : Dispatcher)
    → is_active s ≡ true
    → left s ≤ n
    → (steps h n s).finished ≡ total h s
unfolding steps
steps-total h zero s a e = left-total h s a (omega (arith, e))
steps-total h (suc n) s a e =
    steps-total h n (step h s) (is_active-step h s a) (omega (arith, e, left-step h s a))
    ∙ total-step h s a

left-bound : (s : Dispatcher) → left s ≤ suc (3 * length s.task_list)
unfolding left left_from
left-bound s = ground arith

is_active-play :
    (es : List Event)
    → is_terminated (play es start).thread_state ≡ false
    → is_ended (play es start).phase ≡ false
    → is_active (play es start) ≡ true
unfolding is_active is_attended
is_active-play es t e =
    let attended = is_attended-play es start refl in ground (arith, t, e, attended)

-- Whatever has happened since the start, where the dispatcher is not terminated and the thread has not
-- ended: when the thread goes on, three steps for each task on the list and one more are enough for it
-- to be done with the task that it is executing and then with those of the list, in their order, of
-- which it executes those that have not expired. A step is one of the thread's or, while it sleeps, the
-- signal that wakes it.
pub steps-play :
    (h : ℕ → Bool) (n : ℕ) (es : List Event)
    → is_terminated (play es start).thread_state ≡ false
    → is_ended (play es start).phase ≡ false
    → suc (3 * length (play es start).task_list) ≤ n
    → (steps h n (play es start)).finished
      ≡ (play es start).finished
        ++ map (outcome h) (current (play es start).phase ++ (play es start).task_list)
unfolding total
steps-play h n es t e b =
    let s = play es start in
    steps-total h n s (is_active-play es t e) (omega (arith, b, left-bound s))
