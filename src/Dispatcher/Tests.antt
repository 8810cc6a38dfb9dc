-- ===== src/Dispatcher/Tests.antt =====
-- Two tasks, the second of which expires, and a dispatcher that is stopped.
use otchronos.Prelude.{◌≡◌, refl, ◌==◌, true, false, List, [], ◌∷◌, arith}
use otchronos.Dispatcher.{
  start, Event, adding, advancing, call, play, state_closing, Dispatcher, asleep,
}
use otchronos.Dispatcher.Wakeup.{is_attended, is_attended-play}
use otchronos.Dispatcher.Drain.{is_ended, steps, steps-play}
use otchronos.Dispatcher.Order.{
  taken, is_stopped, all_accepted, all_plain, has_shutdown, taken-play, is_stopped-play,
}

-- The thread is executing task 1, and task 2 waits.
abbrev busy : List Event
busy = adding 1 false ∷ adding 2 false ∷ advancing false ∷ advancing false ∷ []

is_attended-play_example : is_attended (play busy start) ≡ true
unfolding is_attended
is_attended-play_example = is_attended-play busy start refl

steps-play_example :
    (steps (λ t. t == 2) 5 (play busy start)).finished ≡ (1, true) ∷ (2, false) ∷ []
unfolding play call is_ended
steps-play_example = steps-play (λ t. t == 2) 5 busy refl refl (omega arith)

taken-play_example : taken (play busy start) ≡ 1 ∷ 2 ∷ []
unfolding all_accepted all_plain call
taken-play_example = taken-play busy start refl

-- What `main` does where no service runs, with the thread asleep: task 7 stands for the one that is to
-- shut both threads down.
abbrev idle : Dispatcher
idle = record {
  task_list = [];
  thread_state = state_closing;
  phase = asleep;
  signals = 0;
  finished = [];
}

is_stopped-play_example :
    (is_stopped (play (adding 7 false ∷ advancing false ∷ []) idle) ≡ true)
    × (taken (play (adding 7 false ∷ advancing false ∷ []) idle) ≡ [])
unfolding is_stopped has_shutdown
is_stopped-play_example = is_stopped-play (adding 7 false ∷ advancing false ∷ []) idle refl refl
