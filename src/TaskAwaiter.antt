-- ===== src/TaskAwaiter.antt =====
-- corral/detail/TaskAwaiter.h: TaskAwaiter, by which a task is awaited, and Result of
-- corral/detail/utility.h, in which it keeps what the task ends with. The promise is not part of it: it is
-- whether the awaiter has one, with what it was asked to do; it answers by ending with an outcome. The
-- awaiter is driven by a parent, whose calls its checker (Checker) watches.
pub mod Inv
pub mod Runs
pub mod Lambda
mod Tests
use corral.Base.{
  ℕ, ◌+◌, Bool, true, false, not, ◌==◌, Option, none, some, List, [], ◌∷◌, if◌then◌else◌,
}
use corral.Checker.{
  Checker, check, asks_ready, cancels_early, asks_must_resume, suspends, cancels, sets_executor,
  resumes, takes,
}
use corral.TaskValue.{Cells, has_promise, take_value}

-- `Result`: the variant `value_`. A value is a number, and so is an exception.
pub data Result : Type 0 where
  incomplete was_cancelled : Result
  a_value an_exception : ℕ → Result

abbrev pub is_completed : Result → Bool
is_completed incomplete = false
is_completed _ = true

abbrev pub is_cancelled : Result → Bool
is_cancelled was_cancelled = true
is_cancelled _ = false

-- What `value` comes to: a value, or an exception that it throws.
pub data Taken : Type 0 where
  returns throws : ℕ → Taken

-- `Result::value`; `none` is the failed assertion.
abbrev pub value : Result → Option Taken
value (a_value v) = some (returns v)
value (an_exception e) = some (throws e)
value _ = none

-- `promise` says whether `promise_` is set. `cancels` counts the calls of its `cancel`, `started` says
-- whether it was started, and `resumed` counts how often its end resumes `continuation_`.
pub record TaskAwaiter : Type 0 where
  pub promise : Bool
  pub result : Result
  pub continuation : ℕ
  pub executor : Bool
  pub started : Bool
  pub asked : ℕ
  pub resumed : ℕ

-- The constructor of an awaiter from a promise, and from a result.
abbrev pub holding : Bool → Result → TaskAwaiter
holding p r = record {
  promise = p;
  result = r;
  continuation = 0;
  executor = false;
  started = false;
  asked = 0;
  resumed = 0;
}

abbrev pub holding_value : Option (ℕ × ℕ × Cells) → Option (TaskAwaiter × ℕ × Cells)
holding_value none = none
holding_value (some (v, left, cells)) = some (holding false (a_value v), left, cells)

-- The constructor from a `ValueOrPromise`, with what is left of that.
unfoldable pub construct : Bool → ℕ → Cells → Option (TaskAwaiter × ℕ × Cells)
construct fits_inline bits cells =
    if has_promise bits
    then some (holding (not (bits == 0)) incomplete, bits, cells)
    else holding_value (take_value fits_inline bits cells)

-- `await_set_executor`, which follows `promise_` even if it is null.
abbrev pub await_set_executor : TaskAwaiter → Option TaskAwaiter
await_set_executor t = if t.promise then some (record t { executor = true }) else none

-- `await_early_cancel` and `await_cancel`, which return false.
abbrev pub cancel : TaskAwaiter → TaskAwaiter
cancel t = if t.promise then record t { asked = t.asked + 1 } else t

-- `await_ready`
abbrev pub await_ready : TaskAwaiter → Bool
await_ready t = is_completed t.result

-- `await_suspend`
abbrev pub await_suspend : ℕ → TaskAwaiter → Option TaskAwaiter
await_suspend h t = if t.promise then some (record t { continuation = h; started = true }) else none

abbrev pub await_must_resume : TaskAwaiter → Bool
await_must_resume t = not (is_cancelled t.result)

abbrev pub await_resume : TaskAwaiter → Option Taken
await_resume t = value t.result

-- What a promise does at its end: `storeValue`, `storeException` or `cancelled`, if any, and then
-- `continuation`, whose handle is resumed.
abbrev pub continue_parent : TaskAwaiter → Option TaskAwaiter
continue_parent t =
    if is_completed t.result
    then some (record t { promise = false; resumed = t.resumed + 1 })
    else none

abbrev pub ends_with : Result → TaskAwaiter → Option TaskAwaiter
ends_with r t = continue_parent (record t { result = r })

-- What happens to an awaiter: the parent's calls, and the end of the promise.
pub data Event : Type 0 where
  ask_ready ask_early set_executor ask_must_resume take : Event
  suspend cancel_with : ℕ → Event
  end : Result → Event

-- An awaiter with its checker.
abbrev pub both : Option TaskAwaiter → Option Checker → Option (TaskAwaiter × Checker)
both (some t) (some k) = some (t, k)
both _ _ = none

-- The awaiter stays as it is if the task has a result for the parent.
abbrev pub given : Option Taken → TaskAwaiter → Option TaskAwaiter
given none t = none
given (some r) t = some t

unfoldable pub happen : Event → TaskAwaiter → Checker → Option (TaskAwaiter × Checker)
unfolding check
happen ask_ready t k = both (some t) (check (asks_ready (await_ready t)) k)
happen ask_early t k = both (some (cancel t)) (check (cancels_early false) k)
happen set_executor t k = both (await_set_executor t) (check sets_executor k)
happen (suspend h) t k = both (await_suspend h t) (check (suspends h) k)
happen (cancel_with h) t k = both (some (cancel t)) (check (cancels h) k)
happen ask_must_resume t k = both (some t) (check (asks_must_resume (await_must_resume t)) k)
happen take t k = both (given (await_resume t) t) (check takes k)
happen (end r) t k = both (ends_with r t) (check resumes k)

abbrev pub and_then :
    Option (TaskAwaiter × Checker)
    → (TaskAwaiter → Checker → Option (TaskAwaiter × Checker))
    → Option (TaskAwaiter × Checker)
and_then none f = none
and_then (some (t, k)) f = f t k

unfoldable pub run : List Event → TaskAwaiter → Checker → Option (TaskAwaiter × Checker)
unfolding happen
run [] t k = some (t, k)
run (e ∷ es) t k = and_then (happen e t k) (run es)
