-- ===== src/TaskAwaiter/Tests.antt =====
-- Awaiters of tasks, on small inputs, and witnesses (corral/detail/TaskAwaiter.h).
use corral.Base.{◌≡◌, ◌⊎◌, refl, true, false, none, some, List, [], ◌∷◌, arith}
use corral.Checker.{Checker, fresh, check}
use corral.TaskValue.{Cells, has_promise, from_promise, from_value, take_value}
use corral.TaskAwaiter.{
  incomplete, a_value, TaskAwaiter, holding, construct, Event, ask_ready, set_executor,
  ask_must_resume, suspend, cancel_with, end, happen, run,
}
use corral.TaskAwaiter.Runs.{all_allowed, follows_null, Sound, task_life_lem}

abbrev no_cells : Cells
no_cells k = none

-- A task is cancelled while it runs, and has a value all the same.
abbrev late : List Event
late = ask_ready ∷ set_executor ∷ suspend 9 ∷ cancel_with 9 ∷ end (a_value 5) ∷ ask_must_resume ∷ []

task_life_lem_example :
    ((follows_null late (holding true incomplete) fresh ≡ true)
      × (run late (holding true incomplete) fresh ≡ none))
    ⊎ ((u : TaskAwaiter) × (l : Checker) × (run late (holding true incomplete) fresh ≡ some (u, l))
        × Sound u l)
unfolding all_allowed construct has_promise happen check from_promise
task_life_lem_example =
    task_life_lem true 4096 no_cells (holding true incomplete) 4096 no_cells late (omega arith) refl
      refl

-- No null promise is followed in that run.
late_follows_none : follows_null late (holding true incomplete) fresh ≡ false
unfolding follows_null happen check
late_follows_none = refl

-- What the constructor makes of a value.
from_seven :
    construct true (from_value true 4096 7 no_cells).0 no_cells
    ≡ some (holding false (a_value 7), 1, no_cells)
unfolding construct has_promise from_value take_value
from_seven = refl

-- A task that is ready follows a null promise if its executor is set, as a combiner does that is not ready
-- itself.
null_promise : run (set_executor ∷ []) (holding false (a_value 7)) fresh ≡ none
unfolding run
null_promise = refl
