-- ===== src/Checker/Documented.antt =====
-- The checker (corral/detail/utility.h) against the state machine of an awaiter that the documentation
-- (doc/02_adapting.md) describes.
use corral.Base.{
  ℕ, ◌≡◌, refl, sym, subst, ap, ◌∙◌, Bool, true, false, ◌&&◌, ◌==◌, List, [], ◌∷◌, Option, none,
  some, if◌then◌else◌, arith,
}
use corral.Checker.{
  State, initial, not_ready, initial_cxl_pend, cancel_pending, ready_immediately, running,
  cancelling, ready_after_cancel, ready, cancelled, done, Checker, Call, asks_ready, cancels_early,
  asks_must_resume, cancel_returns, suspends, cancels, sets_executor, suspend_throws, resumes,
  takes, check, run, and_then,
}

-- What may be called in each state, by the documentation, and the state after it. A call of
-- `await_cancel` is in two parts, since the handle may be resumed before it returns.
abbrev pub documented : State → Call → Option State
documented initial (cancels_early r) = some (if r then cancelled else initial_cxl_pend)
documented initial (asks_ready r) = some (if r then ready_immediately else not_ready)
documented not_ready (cancels_early r) = some (if r then cancelled else cancel_pending)
documented not_ready (asks_ready r) = some (if r then ready_immediately else not_ready)
documented not_ready (suspends h) = some running
documented ready_immediately (asks_ready r) = if r then some ready_immediately else none
documented ready_immediately (cancels_early r) = some (if r then cancelled else ready_after_cancel)
documented ready_immediately takes = some done
documented initial_cxl_pend (asks_ready r) = some (if r then ready_after_cancel else cancel_pending)
documented cancel_pending (asks_ready r) = some (if r then ready_after_cancel else cancel_pending)
documented cancel_pending (suspends h) = some cancelling
documented running (cancels h) = some cancelling
documented running resumes = some ready
documented cancelling resumes = some ready_after_cancel
documented cancelling (cancel_returns r) = some (if r then cancelled else cancelling)
documented ready_after_cancel (asks_must_resume r) = some (if r then ready else cancelled)
documented ready takes = some done
documented s (cancel_returns r) = if r then none else some s
documented _ _ = none

-- The documentation is about these calls; it does not speak of exceptions and executors.
abbrev pub is_described : State → Call → Bool
is_described s sets_executor = false
is_described s suspend_throws = false
is_described ready_after_cancel (asks_ready r) = false
is_described s c = true

abbrev pub is_handle : ℕ → Call → Bool
is_handle h (cancels g) = h == g
is_handle h c = true

abbrev pub state_of : Option Checker → Option State
state_of none = none
state_of (some k) = some k.state

abbrev pub holds_of : Option Checker → (Checker → Bool) → Bool
holds_of none f = true
holds_of (some k) f = f k

by_state :
    (s : State) (c : Call) (h : ℕ)
    → (is_described s c && is_handle h c) ≡ true
    → state_of (check c (record { state = s; has_executor = true; real_handle = h }))
      ≡ documented s c
unfolding check
by_state initial (asks_ready r) h e = refl
by_state s c h e = ground (arith, e)

step-documented :
    (c : Call) (k : Checker)
    → (is_described k.state c && is_handle k.real_handle c) ≡ true
    → k.has_executor ≡ true
    → state_of (check c k) ≡ documented k.state c
step-documented c k e h =
    subst
      (λ b.
        state_of
          (check c (record { state = k.state; has_executor = b; real_handle = k.real_handle }))
        ≡ documented k.state c)
      (sym h) (by_state k.state c k.real_handle e)

kept_by_state :
    (s : State) (c : Call) (h : ℕ)
    → holds_of
        (check c (record { state = s; has_executor = true; real_handle = h }))
        (λ l. l.has_executor)
      ≡ true
unfolding check
kept_by_state initial (asks_ready r) h = refl
kept_by_state s c h = ground arith

step-has_executor :
    (c : Call) (k : Checker)
    → k.has_executor ≡ true
    → holds_of (check c k) (λ l. l.has_executor) ≡ true
step-has_executor c k h =
    subst
      (λ b.
        holds_of
          (check c (record { state = k.state; has_executor = b; real_handle = k.real_handle }))
          (λ l. l.has_executor)
        ≡ true)
      (sym h) (kept_by_state k.state c k.real_handle)

-- The documented states that a sequence of calls leads through.
abbrev pub follow : Option State → (State → Option State) → Option State
follow none f = none
follow (some s) f = f s

abbrev pub documented_run : List Call → State → Option State
documented_run [] s = some s
documented_run (c ∷ cs) s = follow (documented s c) (documented_run cs)

unfoldable pub all_described : List Call → Checker → Bool
unfolding check
all_described [] k = true
all_described (c ∷ cs) k =
    is_described k.state c && is_handle k.real_handle c && holds_of (check c k) (all_described cs)

run_rest :
    (o : Option Checker) (d : Option State) (f : Checker → Option Checker)
    (g : State → Option State)
    → state_of o ≡ d
    → ((l : Checker) → o ≡ some l → state_of (f l) ≡ g l.state)
    → state_of (and_then o f) ≡ follow d g
run_rest none d f g e h = ap (λ d. follow d g) e
run_rest (some l) d f g e h = h l refl ∙ ap (λ d. follow d g) e

-- On an awaiter whose executor has been set, the checker accepts a sequence of calls exactly if the
-- documented state machine allows each of them, and leads to the same state, where await_cancel is given
-- the handle of await_suspend, await_suspend does not throw, no executor is set again, and await_ready
-- is not asked between a resumption after a cancellation and await_must_resume.
pub run-documented :
    (cs : List Call) (k : Checker)
    → all_described cs k ≡ true
    → k.has_executor ≡ true
    → state_of (run cs k) ≡ documented_run cs k.state
unfolding run all_described
run-documented [] k ok h = refl
run-documented (c ∷ cs) k ok h =
    run_rest (check c k) (documented k.state c) (run cs) (documented_run cs)
      (step-documented c k (ground (arith, ok)) h)
      (λ l e.
        run-documented cs l (ap (λ o. holds_of o (all_described cs)) (sym e) ∙ ground (arith, ok))
          (ap (λ o. holds_of o (λ m. m.has_executor)) (sym e) ∙ step-has_executor c k h))
