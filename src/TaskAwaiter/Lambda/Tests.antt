-- ===== src/TaskAwaiter/Lambda/Tests.antt =====
-- An awaited lambda, on small inputs, and witnesses (corral/detail/utility.h).
use corral.Base.{◌≡◌, refl, true, false, none, some, List, [], ◌∷◌, arith}
use corral.Checker.{Checker, fresh, check}
use corral.TaskValue.{Cells, has_promise, take_value}
use corral.TaskAwaiter.{
  incomplete, was_cancelled, a_value, TaskAwaiter, holding, construct, Event, ask_ready, ask_early,
  set_executor, ask_must_resume, take, suspend, end,
}
use corral.TaskAwaiter.Runs.{Sound}
use corral.TaskAwaiter.Lambda.{Lambda, happen, run}
use corral.TaskAwaiter.Lambda.Runs.{all_allowed, lambda_lem}

abbrev no_cells : Cells
no_cells k = none

-- The task is ready: the parent suspends, and is resumed at once.
abbrev at_once : List Event
at_once = ask_ready ∷ set_executor ∷ suspend 3 ∷ take ∷ []

lambda_lem_example :
    (o : Lambda) × (l : Checker) × (run (holding false (a_value 7)) at_once none fresh
      ≡ some (o, l))
    × ((u : TaskAwaiter) → o ≡ some u → Sound u l)
unfolding all_allowed happen check construct has_promise take_value
lambda_lem_example =
    lambda_lem true 31 no_cells (holding false (a_value 7)) 1 no_cells at_once (omega arith) refl
      refl

-- The task is cancelled before it starts.
abbrev cancelled_first : List Event
cancelled_first =
    ask_early ∷ ask_ready ∷ set_executor ∷ suspend 3 ∷ end was_cancelled ∷ ask_must_resume ∷ []

cancelled_early :
    (o : Lambda) × (l : Checker) × (run (holding true incomplete) cancelled_first none fresh
      ≡ some (o, l))
    × ((u : TaskAwaiter) → o ≡ some u → Sound u l)
unfolding all_allowed happen check construct has_promise take_value
cancelled_early =
    lambda_lem true 4096 no_cells (holding true incomplete) 4096 no_cells cancelled_first
      (omega arith) refl refl
