-- ===== src/TaskAwaiter/Lambda/Inv.antt =====
-- How an awaited lambda stands to its checker, and what its parent and the promise may do
-- (corral/detail/utility.h).
use corral.Base.{ℕ, ◌≡◌, Bool, true, false, not, ◌&&◌, ◌||◌, ◌==◌, ltb, Option, none, some, arith}
use corral.Checker.{
  State, initial, not_ready, initial_cxl_pend, cancel_pending, ready_immediately, running,
  cancelling, ready_after_cancel, ready, Checker, fresh, check,
}
use corral.TaskAwaiter.{
  Result, is_cancelled, TaskAwaiter, Event, ask_ready, ask_early, set_executor, ask_must_resume,
  take, suspend, cancel_with, end,
}
use corral.TaskAwaiter.Inv.{fits, parent_may, promise_may, sets_early, call_fits, agree}
use corral.TaskAwaiter.Lambda.{Lambda, happen}

-- A lambda is never ready at once, and one that has not been called was not asked for anything but that.
abbrev pub lambda_fits : State → Lambda → Bool
lambda_fits initial none = true
lambda_fits not_ready none = true
lambda_fits not_ready (some t) = fits initial t
lambda_fits cancel_pending (some t) = fits initial_cxl_pend t
lambda_fits initial (some t) = fits initial t
lambda_fits ready_immediately (some t) = false
lambda_fits s (some t) = fits s t
lambda_fits s none = false

abbrev pub has_task : Lambda → Bool
has_task none = false
has_task (some t) = true

abbrev pub holds_of : Lambda → (TaskAwaiter → Bool) → Bool
holds_of none f = true
holds_of (some t) f = f t

-- As of an awaiter, and the lambda has been called if an executor was set.
abbrev pub lambda_agree : Lambda → Checker → Bool
lambda_agree o k =
    lambda_fits k.state o
    && (not k.has_executor || has_task o)
    && holds_of o (λ t. not t.started || (t.continuation == k.real_handle))
    && holds_of o (λ t. t.started || (t.resumed == 0))
    && holds_of o (λ t. not (is_cancelled t.result) || ltb 0 t.asked)

abbrev pub promise_of : Lambda → Event → Bool
promise_of none e = false
promise_of (some t) e = promise_may t e

abbrev pub allowed : Event → Lambda → Checker → Bool
allowed e o k = promise_of o e || sets_early k e || (parent_may k.state e && call_fits k e)

abbrev pub agree_of : Option (Lambda × Checker) → Bool
agree_of none = false
agree_of (some (o, k)) = lambda_agree o k

at_state : State → Bool → ℕ → Checker
at_state s x h = record { state = s; has_executor = x; real_handle = h }

-- What the function returns: a task that was not awaited.
abbrev pub task_fits : TaskAwaiter → Bool
task_fits c = agree c fresh

module _ (callable : TaskAwaiter) (untouched : task_fits callable ≡ true) where
  ready_lem :
      (s : State) (x : Bool) (h : ℕ) (o : Lambda)
      → lambda_agree o (at_state s x h) ≡ true
      → allowed ask_ready o (at_state s x h) ≡ true
      → agree_of (happen callable ask_ready o (at_state s x h)) ≡ true
  unfolding at_state happen check
  ready_lem initial x h none f a = ground (arith, f, a, untouched)
  ready_lem initial x h (some t) f a = ground (arith, f, a, untouched)
  ready_lem not_ready x h none f a = ground (arith, f, a, untouched)
  ready_lem not_ready x h (some t) f a = ground (arith, f, a, untouched)
  ready_lem initial_cxl_pend x h none f a = ground (arith, f, a, untouched)
  ready_lem initial_cxl_pend x h (some t) f a = ground (arith, f, a, untouched)
  ready_lem cancel_pending x h none f a = ground (arith, f, a, untouched)
  ready_lem cancel_pending x h (some t) f a = ground (arith, f, a, untouched)
  ready_lem ready_immediately x h none f a = ground (arith, f, a, untouched)
  ready_lem ready_immediately x h (some t) f a = ground (arith, f, a, untouched)
  ready_lem _ x h none f a = ground (arith, f, a)
  ready_lem _ x h (some t) f a = ground (arith, f, a)

  early_lem :
      (s : State) (x : Bool) (h : ℕ) (o : Lambda)
      → lambda_agree o (at_state s x h) ≡ true
      → allowed ask_early o (at_state s x h) ≡ true
      → agree_of (happen callable ask_early o (at_state s x h)) ≡ true
  unfolding at_state happen check
  early_lem initial x h none f a = ground (arith, f, a, untouched)
  early_lem initial x h (some t) f a = ground (arith, f, a, untouched)
  early_lem not_ready x h none f a = ground (arith, f, a, untouched)
  early_lem not_ready x h (some t) f a = ground (arith, f, a, untouched)
  early_lem ready_immediately x h none f a = ground (arith, f, a, untouched)
  early_lem ready_immediately x h (some t) f a = ground (arith, f, a, untouched)
  early_lem _ x h none f a = ground (arith, f, a)
  early_lem _ x h (some t) f a = ground (arith, f, a)

  executor_lem :
      (s : State) (x : Bool) (h : ℕ) (o : Lambda)
      → lambda_agree o (at_state s x h) ≡ true
      → allowed set_executor o (at_state s x h) ≡ true
      → agree_of (happen callable set_executor o (at_state s x h)) ≡ true
  unfolding at_state happen check
  executor_lem initial x h none f a = ground (arith, f, a, untouched)
  executor_lem initial x h (some t) f a = ground (arith, f, a, untouched)
  executor_lem not_ready x h none f a = ground (arith, f, a, untouched)
  executor_lem not_ready x h (some t) f a = ground (arith, f, a, untouched)
  executor_lem initial_cxl_pend x h none f a = ground (arith, f, a, untouched)
  executor_lem initial_cxl_pend x h (some t) f a = ground (arith, f, a, untouched)
  executor_lem cancel_pending x h none f a = ground (arith, f, a, untouched)
  executor_lem cancel_pending x h (some t) f a = ground (arith, f, a, untouched)
  executor_lem ready_immediately x h none f a = ground (arith, f, a, untouched)
  executor_lem ready_immediately x h (some t) f a = ground (arith, f, a, untouched)
  executor_lem _ x h none f a = ground (arith, f, a)
  executor_lem _ x h (some t) f a = ground (arith, f, a)

  suspend_lem :
      (s : State) (x : Bool) (h : ℕ) (o : Lambda) (g : ℕ)
      → lambda_agree o (at_state s x h) ≡ true
      → allowed (suspend g) o (at_state s x h) ≡ true
      → agree_of (happen callable (suspend g) o (at_state s x h)) ≡ true
  unfolding at_state happen check
  suspend_lem not_ready x h none g f a = ground (arith, f, a, untouched)
  suspend_lem not_ready x h (some t) g f a = ground (arith, f, a, untouched)
  suspend_lem cancel_pending x h none g f a = ground (arith, f, a, untouched)
  suspend_lem cancel_pending x h (some t) g f a = ground (arith, f, a, untouched)
  suspend_lem _ x h none g f a = ground (arith, f, a)
  suspend_lem _ x h (some t) g f a = ground (arith, f, a)

  cancel_lem :
      (s : State) (x : Bool) (h : ℕ) (o : Lambda) (g : ℕ)
      → lambda_agree o (at_state s x h) ≡ true
      → allowed (cancel_with g) o (at_state s x h) ≡ true
      → agree_of (happen callable (cancel_with g) o (at_state s x h)) ≡ true
  unfolding at_state happen check
  cancel_lem running x h none g f a = ground (arith, f, a, untouched)
  cancel_lem running x h (some t) g f a = ground (arith, f, a, untouched)
  cancel_lem _ x h none g f a = ground (arith, f, a)
  cancel_lem _ x h (some t) g f a = ground (arith, f, a)

  must_lem :
      (s : State) (x : Bool) (h : ℕ) (o : Lambda)
      → lambda_agree o (at_state s x h) ≡ true
      → allowed ask_must_resume o (at_state s x h) ≡ true
      → agree_of (happen callable ask_must_resume o (at_state s x h)) ≡ true
  unfolding at_state happen check
  must_lem ready_after_cancel x h none f a = ground (arith, f, a, untouched)
  must_lem ready_after_cancel x h (some t) f a = ground (arith, f, a, untouched)
  must_lem _ x h none f a = ground (arith, f, a)
  must_lem _ x h (some t) f a = ground (arith, f, a)

  taken_lem :
      (s : State) (x : Bool) (h : ℕ) (o : Lambda)
      → lambda_agree o (at_state s x h) ≡ true
      → allowed take o (at_state s x h) ≡ true
      → agree_of (happen callable take o (at_state s x h)) ≡ true
  unfolding at_state happen check
  taken_lem ready_immediately x h none f a = ground (arith, f, a, untouched)
  taken_lem ready_immediately x h (some t) f a = ground (arith, f, a, untouched)
  taken_lem ready x h none f a = ground (arith, f, a, untouched)
  taken_lem ready x h (some t) f a = ground (arith, f, a, untouched)
  taken_lem _ x h none f a = ground (arith, f, a)
  taken_lem _ x h (some t) f a = ground (arith, f, a)

  end_lem :
      (s : State) (x : Bool) (h : ℕ) (o : Lambda) (g : Result)
      → lambda_agree o (at_state s x h) ≡ true
      → allowed (end g) o (at_state s x h) ≡ true
      → agree_of (happen callable (end g) o (at_state s x h)) ≡ true
  unfolding at_state happen check
  end_lem running x h none g f a = ground (arith, f, a, untouched)
  end_lem running x h (some t) g f a = ground (arith, f, a, untouched)
  end_lem cancelling x h none g f a = ground (arith, f, a, untouched)
  end_lem cancelling x h (some t) g f a = ground (arith, f, a, untouched)
  end_lem _ x h none g f a = absurd (ground (arith, f, a))
  end_lem _ x h (some t) g f a = absurd (ground (arith, f, a))

  pub step_lem :
      (e : Event) (o : Lambda) (k : Checker)
      → lambda_agree o k ≡ true
      → allowed e o k ≡ true
      → agree_of (happen callable e o k) ≡ true
  unfolding at_state
  step_lem ask_ready o k f a = ready_lem k.state k.has_executor k.real_handle o f a
  step_lem ask_early o k f a = early_lem k.state k.has_executor k.real_handle o f a
  step_lem set_executor o k f a = executor_lem k.state k.has_executor k.real_handle o f a
  step_lem (suspend g) o k f a = suspend_lem k.state k.has_executor k.real_handle o g f a
  step_lem (cancel_with g) o k f a = cancel_lem k.state k.has_executor k.real_handle o g f a
  step_lem ask_must_resume o k f a = must_lem k.state k.has_executor k.real_handle o f a
  step_lem take o k f a = taken_lem k.state k.has_executor k.real_handle o f a
  step_lem (end g) o k f a = end_lem k.state k.has_executor k.real_handle o g f a
