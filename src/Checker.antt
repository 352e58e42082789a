-- ===== src/Checker.antt =====
-- corral/detail/utility.h: the checker of the calls that are made on an awaiter, AwaiterStateChecker
-- (as it is compiled with CORRAL_AWAITABLE_STATE_DEBUG), and the adapter that makes one not cancellable.
-- A call comes with what the awaiter answers; a failed assertion is `none`.
pub mod Documented
pub mod Adapters
mod Tests
use corral.Base.{
  ℕ, Bool, true, false, not, ◌&&◌, ◌||◌, ◌==◌, Option, none, some, List, [], ◌∷◌, ◌++◌,
  if◌then◌else◌,
}

-- `AwaiterStateChecker::State`
pub data State : Type 0 where
  initial not_ready initial_cxl_pend cancel_pending ready_immediately running cancelling
        ready_after_cancel ready cancelled done :
      State

-- `AwaiterStateChecker`; handles are numbers.
pub record Checker : Type 0 where
  pub state : State
  pub has_executor : Bool
  pub real_handle : ℕ

abbrev pub fresh : Checker
fresh = record { state = initial; has_executor = false; real_handle = 0 }

-- What is done to an awaiter: `await_ready`, `await_early_cancel` and `await_must_resume` with the
-- answer, `await_suspend`, which may throw, `await_cancel` and then its answer, the resumption of the
-- handle that the awaiter was given, and `await_resume`.
pub data Call : Type 0 where
  asks_ready cancels_early asks_must_resume cancel_returns : Bool → Call
  suspends cancels : ℕ → Call
  sets_executor suspend_throws resumes takes : Call

-- An assertion of the checker.
abbrev pub checked : Bool → Checker → Option Checker
checked true k = some k
checked false k = none

abbrev pub at : State → Checker → Option Checker
at s k = some (record k { state = s })

-- `readyReturned`, by the state.
abbrev pub ready_returned : State → Bool → Checker → Option Checker
ready_returned initial r k = at (if r then ready_immediately else not_ready) k
ready_returned not_ready r k = at (if r then ready_immediately else not_ready) k
ready_returned initial_cxl_pend r k = at (if r then ready_after_cancel else cancel_pending) k
ready_returned cancel_pending r k = at (if r then ready_after_cancel else cancel_pending) k
ready_returned ready_immediately r k = checked r k
ready_returned ready_after_cancel r k = checked r k
ready_returned _ r k = none

-- `earlyCancelReturned`
abbrev pub early_cancel_returned : State → Bool → Checker → Option Checker
early_cancel_returned initial r k = at (if r then cancelled else initial_cxl_pend) k
early_cancel_returned not_ready r k = at (if r then cancelled else cancel_pending) k
early_cancel_returned ready_immediately r k = at (if r then cancelled else ready_after_cancel) k
early_cancel_returned _ r k = none

-- `aboutToSetExecutor`
abbrev pub before_suspension : State → Bool
before_suspension initial = true
before_suspension not_ready = true
before_suspension initial_cxl_pend = true
before_suspension cancel_pending = true
before_suspension ready_immediately = true
before_suspension _ = false

abbrev pub about_to_set_executor : Checker → Option Checker
about_to_set_executor k = checked (before_suspension k.state) (record k { has_executor = true })

-- `aboutToSuspend`
abbrev pub suspend_from : State → ℕ → Checker → Option Checker
suspend_from not_ready h k = some (record k { state = running; real_handle = h })
suspend_from cancel_pending h k = some (record k { state = cancelling; real_handle = h })
suspend_from _ h k = none

abbrev pub about_to_suspend : ℕ → Checker → Option Checker
about_to_suspend h k = if k.has_executor then suspend_from k.state h k else none

abbrev pub is_running : State → Bool
is_running running = true
is_running _ = false

abbrev pub is_cancelling : State → Bool
is_cancelling cancelling = true
is_cancelling _ = false

abbrev pub is_ready_after_cancel : State → Bool
is_ready_after_cancel ready_after_cancel = true
is_ready_after_cancel _ = false

abbrev pub is_ready : State → Bool
is_ready ready_immediately = true
is_ready ready = true
is_ready _ = false

-- The handle that the awaiter was given is resumed.
abbrev pub resumed_from : State → Checker → Option Checker
resumed_from running k = at ready k
resumed_from cancelling k = at ready_after_cancel k
resumed_from _ k = none

-- `suspendThrew`, `aboutToCancel`, `cancelReturned`, `mustResumeReturned` and `aboutToResume`
abbrev pub suspend_threw : Checker → Option Checker
suspend_threw k = checked (is_running k.state || is_cancelling k.state) (record k { state = done })

abbrev pub about_to_cancel : ℕ → Checker → Option Checker
about_to_cancel h k =
    checked (is_running k.state && (k.real_handle == h)) (record k { state = cancelling })

abbrev pub cancel_returned : Bool → Checker → Option Checker
cancel_returned r k =
    if r then checked (is_cancelling k.state) (record k { state = cancelled }) else some k

abbrev pub must_resume_returned : Bool → Checker → Option Checker
must_resume_returned r k =
    checked (is_ready_after_cancel k.state) (record k { state = if r then ready else cancelled })

abbrev pub about_to_resume : Checker → Option Checker
about_to_resume k = checked (is_ready k.state) (record k { state = done })

-- `reset`, which the destructor calls: an awaiter is left untouched, cancelled or done.
abbrev pub is_final : State → Bool
is_final initial = true
is_final cancelled = true
is_final done = true
is_final _ = false

abbrev pub reset : Checker → Option Checker
reset k = checked (is_final k.state) (record k { state = initial; has_executor = false })

-- One call on a checked awaiter.
unfoldable pub check : Call → Checker → Option Checker
check (asks_ready r) k = ready_returned k.state r k
check (cancels_early r) k = early_cancel_returned k.state r k
check (asks_must_resume r) k = must_resume_returned r k
check (cancel_returns r) k = cancel_returned r k
check (suspends h) k = about_to_suspend h k
check (cancels h) k = about_to_cancel h k
check sets_executor k = about_to_set_executor k
check suspend_throws k = suspend_threw k
check resumes k = resumed_from k.state k
check takes k = about_to_resume k

abbrev pub and_then : Option Checker → (Checker → Option Checker) → Option Checker
and_then none f = none
and_then (some k) f = f k

unfoldable pub run : List Call → Checker → Option Checker
unfolding check
run [] k = some k
run (c ∷ cs) k = and_then (check c k) (run cs)

-- The calls that `NoncancellableAdapter` passes on, and its own answers to the others.
unfoldable pub noncancellable : Call → List Call
noncancellable (cancels_early r) = []
noncancellable (asks_must_resume r) = []
noncancellable (cancel_returns r) = []
noncancellable (cancels h) = []
noncancellable c = c ∷ []

abbrev pub answers_noncancellable : Call → Bool
answers_noncancellable (cancels_early r) = not r
answers_noncancellable (asks_must_resume r) = r
answers_noncancellable (cancel_returns r) = not r
answers_noncancellable _ = true
