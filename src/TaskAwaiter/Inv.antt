-- ===== src/TaskAwaiter/Inv.antt =====
-- How a task's awaiter stands to its checker (corral/detail/TaskAwaiter.h), and what its parent and its
-- promise may do.
use corral.Base.{
  ℕ, ◌≡◌, Bool, true, false, not, ◌&&◌, ◌||◌, ◌==◌, ltb, leb, Option, none, some, arith,
}
use corral.Checker.{
  State, initial, not_ready, initial_cxl_pend, cancel_pending, ready_immediately, running,
  cancelling, ready_after_cancel, ready, cancelled, done, Checker, check, before_suspension,
}
use corral.TaskAwaiter.{
  Result, is_completed, is_cancelled, TaskAwaiter, Event, ask_ready, ask_early, set_executor,
  ask_must_resume, take, suspend, cancel_with, end, happen,
}

-- By the state of the checker: the awaiter has a promise that has not ended, or a result.
abbrev waits : TaskAwaiter → Bool
waits t = t.promise && not (is_completed t.result)

abbrev has_result : TaskAwaiter → Bool
has_result t = not t.promise && is_completed t.result

abbrev has_value : TaskAwaiter → Bool
has_value t = has_result t && not (is_cancelled t.result)

abbrev quiet : TaskAwaiter → Bool
quiet t = not t.started && (t.resumed == 0)

abbrev pub fits : State → TaskAwaiter → Bool
fits initial t = (waits t && (t.asked == 0) || has_value t) && quiet t
fits initial_cxl_pend t = (waits t && ltb 0 t.asked || has_value t) && quiet t
fits not_ready t = waits t && (t.asked == 0) && quiet t
fits cancel_pending t = waits t && ltb 0 t.asked && quiet t
fits ready_immediately t = has_value t && quiet t
fits running t = waits t && (t.asked == 0) && t.started && (t.resumed == 0)
fits cancelling t = waits t && ltb 0 t.asked && t.started && (t.resumed == 0)
fits ready_after_cancel t = has_result t && leb t.resumed 1
fits ready t = has_value t && leb t.resumed 1
fits cancelled t = has_result t && leb t.resumed 1
fits done t = has_value t && leb t.resumed 1

-- What a parent may do by the documented state machine; where it may set the executor is said by
-- `sets_early`.
abbrev pub parent_may : State → Event → Bool
parent_may initial ask_ready = true
parent_may initial ask_early = true
parent_may not_ready ask_ready = true
parent_may not_ready ask_early = true
parent_may not_ready (suspend h) = true
parent_may initial_cxl_pend ask_ready = true
parent_may cancel_pending ask_ready = true
parent_may cancel_pending (suspend h) = true
parent_may ready_immediately ask_ready = true
parent_may ready_immediately ask_early = true
parent_may ready_immediately take = true
parent_may running (cancel_with h) = true
parent_may ready_after_cancel ask_must_resume = true
parent_may ready take = true
parent_may s e = false

-- A promise that was started ends with a result, and is cancelled only if it was asked to.
abbrev pub promise_may : TaskAwaiter → Event → Bool
promise_may t (end r) =
    t.promise && t.started && is_completed r && (not (is_cancelled r) || ltb 0 t.asked)
promise_may t e = false

-- The parent sets an executor before it suspends, and cancels with the handle that it suspended with.
abbrev pub call_fits : Checker → Event → Bool
call_fits k (suspend h) = k.has_executor
call_fits k (cancel_with h) = k.real_handle == h
call_fits k e = true

-- The executor is set wherever the checker lets it be, as a combiner does, which does so for all its
-- awaitables once one of them is not ready.
abbrev pub sets_early : Checker → Event → Bool
sets_early k set_executor = before_suspension k.state
sets_early k e = false

abbrev pub allowed : Event → TaskAwaiter → Checker → Bool
allowed e t k = promise_may t e || sets_early k e || (parent_may k.state e && call_fits k e)

-- Whether an event sets the executor of a task that has no promise.
abbrev pub sets_null : Event → TaskAwaiter → Bool
sets_null set_executor t = not t.promise
sets_null e t = false

-- What resumes is the handle that the parent gave, and nothing is cancelled unasked.
abbrev pub agree : TaskAwaiter → Checker → Bool
agree t k =
    fits k.state t
    && (not t.started || (t.continuation == k.real_handle))
    && (t.started || (t.resumed == 0))
    && (not (is_cancelled t.result) || ltb 0 t.asked)

abbrev pub agree_of : Option (TaskAwaiter × Checker) → Bool
agree_of none = false
agree_of (some (t, k)) = agree t k

at_state : State → Bool → ℕ → Checker
at_state s x h = record { state = s; has_executor = x; real_handle = h }

ready_lem :
    (s : State) (x : Bool) (h : ℕ) (t : TaskAwaiter)
    → agree t (at_state s x h) ≡ true
    → allowed ask_ready t (at_state s x h) ≡ true
    → agree_of (happen ask_ready t (at_state s x h)) ≡ true
unfolding at_state happen check
ready_lem initial x h t f a = ground (arith, f, a)
ready_lem not_ready x h t f a = ground (arith, f, a)
ready_lem initial_cxl_pend x h t f a = ground (arith, f, a)
ready_lem cancel_pending x h t f a = ground (arith, f, a)
ready_lem ready_immediately x h t f a = ground (arith, f, a)
ready_lem _ x h t f a = ground (arith, a)

early_lem :
    (s : State) (x : Bool) (h : ℕ) (t : TaskAwaiter)
    → agree t (at_state s x h) ≡ true
    → allowed ask_early t (at_state s x h) ≡ true
    → agree_of (happen ask_early t (at_state s x h)) ≡ true
unfolding at_state happen check
early_lem initial x h t f a = ground (arith, f, a)
early_lem not_ready x h t f a = ground (arith, f, a)
early_lem ready_immediately x h t f a = ground (arith, f, a)
early_lem _ x h t f a = ground (arith, a)

executor_lem :
    (s : State) (x : Bool) (h : ℕ) (t : TaskAwaiter)
    → agree t (at_state s x h) ≡ true
    → allowed set_executor t (at_state s x h) ≡ true
    → t.promise ≡ true
    → agree_of (happen set_executor t (at_state s x h)) ≡ true
unfolding at_state happen check
executor_lem initial x h t f a p = ground (arith, f, a, p)
executor_lem not_ready x h t f a p = ground (arith, f, a, p)
executor_lem initial_cxl_pend x h t f a p = ground (arith, f, a, p)
executor_lem cancel_pending x h t f a p = ground (arith, f, a, p)
executor_lem ready_immediately x h t f a p = ground (arith, f, a, p)
executor_lem _ x h t f a p = ground (arith, a)

suspend_lem :
    (s : State) (x : Bool) (h : ℕ) (t : TaskAwaiter) (g : ℕ)
    → agree t (at_state s x h) ≡ true
    → allowed (suspend g) t (at_state s x h) ≡ true
    → agree_of (happen (suspend g) t (at_state s x h)) ≡ true
unfolding at_state happen check
suspend_lem not_ready x h t g f a = ground (arith, f, a)
suspend_lem cancel_pending x h t g f a = ground (arith, f, a)
suspend_lem _ x h t g f a = ground (arith, a)

cancel_lem :
    (s : State) (x : Bool) (h : ℕ) (t : TaskAwaiter) (g : ℕ)
    → agree t (at_state s x h) ≡ true
    → allowed (cancel_with g) t (at_state s x h) ≡ true
    → agree_of (happen (cancel_with g) t (at_state s x h)) ≡ true
unfolding at_state happen check
cancel_lem running x h t g f a = ground (arith, f, a)
cancel_lem _ x h t g f a = ground (arith, a)

must_lem :
    (s : State) (x : Bool) (h : ℕ) (t : TaskAwaiter)
    → agree t (at_state s x h) ≡ true
    → allowed ask_must_resume t (at_state s x h) ≡ true
    → agree_of (happen ask_must_resume t (at_state s x h)) ≡ true
unfolding at_state happen check
must_lem ready_after_cancel x h t f a = ground (arith, f, a)
must_lem _ x h t f a = ground (arith, a)

taken_lem :
    (s : State) (x : Bool) (h : ℕ) (t : TaskAwaiter)
    → agree t (at_state s x h) ≡ true
    → allowed take t (at_state s x h) ≡ true
    → agree_of (happen take t (at_state s x h)) ≡ true
unfolding at_state happen check
taken_lem ready_immediately x h t f a = ground (arith, f, a)
taken_lem ready x h t f a = ground (arith, f, a)
taken_lem _ x h t f a = ground (arith, a)

end_lem :
    (s : State) (x : Bool) (h : ℕ) (t : TaskAwaiter) (g : Result)
    → agree t (at_state s x h) ≡ true
    → allowed (end g) t (at_state s x h) ≡ true
    → agree_of (happen (end g) t (at_state s x h)) ≡ true
unfolding at_state happen check
end_lem running x h t g f a = ground (arith, f, a)
end_lem cancelling x h t g f a = ground (arith, f, a)
end_lem _ x h t g f a = absurd (ground (arith, f, a))

pub step_lem :
    (e : Event) (t : TaskAwaiter) (k : Checker)
    → agree t k ≡ true
    → allowed e t k ≡ true
    → sets_null e t ≡ false
    → agree_of (happen e t k) ≡ true
unfolding at_state
step_lem ask_ready t k f a n = ready_lem k.state k.has_executor k.real_handle t f a
step_lem ask_early t k f a n = early_lem k.state k.has_executor k.real_handle t f a
step_lem set_executor t k f a n =
    executor_lem k.state k.has_executor k.real_handle t f a (ground (arith, n))
step_lem (suspend g) t k f a n = suspend_lem k.state k.has_executor k.real_handle t g f a
step_lem (cancel_with g) t k f a n = cancel_lem k.state k.has_executor k.real_handle t g f a
step_lem ask_must_resume t k f a n = must_lem k.state k.has_executor k.real_handle t f a
step_lem take t k f a n = taken_lem k.state k.has_executor k.real_handle t f a
step_lem (end g) t k f a n = end_lem k.state k.has_executor k.real_handle t g f a

-- A null promise that is followed ends the run.
pub null_lem :
    (e : Event) (t : TaskAwaiter) (k : Checker) → sets_null e t ≡ true → happen e t k ≡ none
unfolding happen
null_lem set_executor t k n = ground (arith, n)
null_lem _ t k n = absurd (ground (arith, n))
