-- ===== src/Mux/Immediate.antt =====
-- Combiners (corral/detail/wait.h) before and without a suspension: early cancellation, readiness, the
-- results of awaitables that are ready at once, and what the parent gets.
pub mod Evolve
pub mod Settle
pub mod Report
pub mod Progress
pub mod Results
mod Tests
use corral.Base.{
  ℕ, zero, suc, ◌+◌, Bool, true, false, not, ◌&&◌, ◌||◌, Option, none, some, List, [], ◌∷◌,
  if◌then◌else◌, ◌==◌, leb, get_elem?,
}
use corral.Mux.{
  State, not_started, cancellation_pending, running, cancelling, cancelled, ready, succeeded,
  failed, Awaiter, Child, Mux, size, set_state, report_result, cancel_from, at_child, unreachable,
  invoke_all, cancel_all,
}

-- `MuxHelper::ready`
abbrev pub child_ready : State → Awaiter → Option Bool
child_ready not_started a = some a.await_ready
child_ready running a = none
child_ready cancelling a = none
child_ready cancellation_pending a = some false
child_ready cancelled a = some false
child_ready ready a = some true
child_ready succeeded a = some true
child_ready failed a = some true

-- One child more: how many are ready, and whether each is or can be skipped.
abbrev pub count_ready : Option Bool → Bool → Option (ℕ × Bool) → Option (ℕ × Bool)
count_ready none s o = none
count_ready (some r) s none = none
count_ready (some r) s (some (n, b)) = some (if r then n + 1 else n, (r || s) && b)

unfoldable pub ready_counts : List Child → Option (ℕ × Bool)
ready_counts [] = some (0, true)
ready_counts (c ∷ cs) =
    count_ready (child_ready c.state c.awaiter) c.awaiter.skippable (ready_counts cs)

-- `await_ready` of a combiner.
unfoldable pub await_ready : Mux → Option Bool
unfolding ready_counts
await_ready m = elim (ready_counts m.children) [
  | none ↦ none
  | some q ↦ some (size m == 0 || leb m.min_ready q.0 && q.1)
]

-- `await_early_cancel`; no child is bound yet.
abbrev pub await_early_cancel : Mux → Bool × Mux
await_early_cancel m = cancel_all (λ e n. n) 0 (size m) m

-- `MuxHelper::reportImmediateResult`, but for a cancellation that is pending.
unfoldable pub report_settled : (Bool → Mux → Mux) → ℕ → Awaiter → State → Mux → Mux
unfolding report_result cancel_from
report_settled invoke i a cancelled m = invoke false m
report_settled invoke i a not_started m =
    if not a.await_ready
    then (let n = cancel_from invoke i a not_started m in
        if a.await_early_cancel then n else unreachable n)
    else report_result invoke i a m
report_settled invoke i a ready m = report_result invoke i a m
report_settled invoke i a _ m = unreachable m

-- `MuxHelper::reportImmediateResult`
unfoldable pub report_from : (Bool → Mux → Mux) → ℕ → Awaiter → State → Mux → Mux
unfolding report_settled
report_from invoke i a cancellation_pending m =
    let s : State = if a.await_must_resume then ready else cancelled in
    report_settled invoke i a s (set_state i s m)
report_from invoke i a s m = report_settled invoke i a s m

unfoldable pub report : ℕ → Mux → Mux
unfolding report_from
report i m = at_child i (report_from invoke_all i) m

-- The first child that is ready, from index `i` on.
unfoldable pub first_ready : ℕ → List Child → Option ℕ
first_ready i [] = none
first_ready i (c ∷ cs) = elim (child_ready c.state c.awaiter) [
  | none ↦ none
  | some r ↦ if r then some i else first_ready (i + 1) cs
]

-- The other children's results.
unfoldable pub report_others : ℕ → ℕ → ℕ → Mux → Mux
unfolding report
report_others r i zero m = m
report_others r i (suc k) m = report_others r (i + 1) k (if i == r then m else report i m)

-- `handleResumeWithoutSuspend`, of a combiner that is not bound. The parent's handle is one that does
-- nothing.
unfoldable pub resume_without_suspend : Mux → Mux
unfolding first_ready report_others
resume_without_suspend m =
    let n : Mux = elim (first_ready 0 m.children) [
      | none ↦ unreachable m
      | some r ↦ report_others r 0 (size m) (report r m)
    ] in
    record n { resumed = m.resumed }

-- `MuxHelper::result` and `asOptional`: whether there is a result; `none` is a failed assertion.
abbrev pub result : State → Option Bool
result succeeded = some true
result _ = none

abbrev pub as_optional : State → Option Bool
as_optional succeeded = some true
as_optional cancelled = some false
as_optional _ = none

abbrev pub cons_result : Option Bool → Option (List Bool) → Option (List Bool)
cons_result none o = none
cons_result (some r) none = none
cons_result (some r) (some rs) = some (r ∷ rs)

unfoldable pub collect : (State → Option Bool) → List Child → Option (List Bool)
collect f [] = some []
collect f (c ∷ cs) = cons_result (f c.state) (collect f cs)

-- What the parent gets, of anyOf and mostOf by `as_optional`, of allOf by `result`.
pub data Outcome : Type 0 where
  an_error : Outcome
  results : List Bool → Outcome

abbrev pub as_results : Option (List Bool) → Option Outcome
as_results none = none
as_results (some rs) = some (results rs)

-- `await_resume` after `handleResumeWithoutSuspend`.
unfoldable pub await_resume : (State → Option Bool) → Mux → Option Outcome
unfolding collect
await_resume f m = if m.error then some an_error else as_results (collect f m.children)
