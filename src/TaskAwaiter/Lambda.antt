-- ===== src/TaskAwaiter/Lambda.antt =====
-- corral/detail/utility.h: AwaitableLambda, by which a function that returns a task is awaited. The function
-- is called when the awaiter is first needed, and is an argument: the awaiter of the task that it returns.
pub mod Inv
pub mod Runs
mod Tests
use corral.Base.{
  ℕ, ◌+◌, ◌≡◌, refl, sym, ◌∙◌, ap, Bool, true, false, not, ◌&&◌, ◌||◌, ◌==◌, leb, ltb,
  if◌then◌else◌, Option, none, some, List, [], ◌∷◌, arith,
}
use corral.Checker.{
  State, initial, not_ready, initial_cxl_pend, cancel_pending, ready_immediately, running,
  cancelling, ready_after_cancel, ready, cancelled, done, Checker, fresh, check, asks_ready,
  cancels_early, asks_must_resume, suspends, cancels, sets_executor, resumes, takes,
}
use corral.TaskAwaiter.{
  is_completed, is_cancelled, TaskAwaiter, await_ready, await_set_executor, cancel, await_suspend,
  await_must_resume, await_resume, ends_with, given, Event, ask_ready, ask_early, set_executor,
  ask_must_resume, take, suspend, cancel_with, end, holding, incomplete, Result,
}

-- A lambda with its checker; `awaiter_` is none while `task_` is not valid.
abbrev pub Lambda : Type 0
Lambda = Option TaskAwaiter

abbrev pub both : Option Lambda → Option Checker → Option (Lambda × Checker)
both (some t) (some k) = some (t, k)
both _ _ = none

-- `awaiter`, which calls the function if there is no task yet.
abbrev pub awaiter : TaskAwaiter → Lambda → TaskAwaiter
awaiter callable none = callable
awaiter callable (some t) = t

abbrev pub made : Option TaskAwaiter → Option Lambda
made none = none
made (some t) = some (some t)

-- What is done with `awaiter_` itself, which there has to be.
abbrev pub forwarded : (TaskAwaiter → Option TaskAwaiter) → Lambda → Option Lambda
forwarded f none = none
forwarded f (some t) = made (f t)

abbrev pub set_executor_of : TaskAwaiter → Option Lambda
set_executor_of t = if not (await_ready t) then made (await_set_executor t) else some (some t)

-- `await_suspend`: the handle is given back at once if the task is ready.
abbrev pub suspend_of : ℕ → Lambda → Checker → Option (Lambda × Checker)
suspend_of h none k = none
suspend_of h (some t) k =
    if await_ready t
    then both (some (some t))
        (elim (check (suspends h) k) [ none ↦ none | some l ↦ check resumes l ])
    else both (made (await_suspend h t)) (check (suspends h) k)

abbrev pub must_resume_of : Lambda → Checker → Option (Lambda × Checker)
must_resume_of none k = none
must_resume_of (some t) k = both (some (some t)) (check (asks_must_resume (await_must_resume t)) k)

unfoldable pub happen : TaskAwaiter → Event → Lambda → Checker → Option (Lambda × Checker)
unfolding check
happen callable ask_ready o k = both (some o) (check (asks_ready false) k)
happen callable ask_early o k =
    both (some (some (cancel (awaiter callable o)))) (check (cancels_early false) k)
happen callable set_executor o k =
    both (set_executor_of (awaiter callable o)) (check sets_executor k)
happen callable (suspend h) o k = suspend_of h o k
happen callable (cancel_with h) o k =
    both (forwarded (λ t. some (cancel t)) o) (check (cancels h) k)
happen callable ask_must_resume o k = must_resume_of o k
happen callable take o k = both (forwarded (λ t. given (await_resume t) t) o) (check takes k)
happen callable (end r) o k = both (forwarded (ends_with r) o) (check resumes k)

abbrev pub and_then :
    Option (Lambda × Checker)
    → (Lambda → Checker → Option (Lambda × Checker))
    → Option (Lambda × Checker)
and_then none f = none
and_then (some (o, k)) f = f o k

unfoldable pub run : TaskAwaiter → List Event → Lambda → Checker → Option (Lambda × Checker)
unfolding happen
run callable [] o k = some (o, k)
run callable (e ∷ es) o k = and_then (happen callable e o k) (run callable es)
