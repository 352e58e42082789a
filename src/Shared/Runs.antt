-- ===== src/Shared/Runs.antt =====
-- Sequences of calls on a shared operation (corral/Shared.h).
use corral.Base.{
  ℕ, ◌≡◌, refl, ◌∙◌, ap, Bool, true, not, ◌&&◌, ◌||◌, List, [], ◌∷◌, Option, none, some, has, arith,
}
use corral.Promise.{OnCancel}
use corral.Shared.{
  OnSuspend, Outcome, State, is_incomplete, is_empty, construct, await_early_cancel, await_resume,
  invoke, await_cancel,
}
use corral.Shared.Inv.{
  Inv, linked-attached, construct-Inv, await_early_cancel-Inv, await_early_cancel-new,
  await_resume-Inv,
}
use corral.Shared.Moves.{suspend_unless_ready-Inv, unless_skipped-Inv, cancel-Inv, invoke-Inv}
use corral.Shared.{suspend_unless_ready, unless_skipped}

-- A task awaits, with the operation's answers to `await_ready`, `await_suspend` and
-- `await_must_resume`, or with a cancellation requested of it and the answer to `await_early_cancel`
-- first; a parent that waits is cancelled; the operation resumes its handle; a task that was resumed,
-- or did not have to wait, takes its result.
pub data Call (A : Type 0) : Type 0 where
  awaits : ℕ → Bool → OnSuspend → Bool → Call A
  awaits_cancelled : ℕ → Bool → Bool → OnSuspend → Bool → Call A
  cancels : ℕ → OnCancel → Bool → Call A
  completed : Bool → Call A
  takes : ℕ → Bool → Outcome A → Call A

module _ {A : Type 0} where
  abbrev pub left_by : Option (State A × Bool) → Option (State A)
  left_by none = none
  left_by (some (t, now)) = some t

  abbrev pub and_then : Option (State A) → (State A → Option (State A)) → Option (State A)
  and_then none f = none
  and_then (some t) f = f t

  abbrev pub holds_of : Option (State A) → (State A → Bool) → Bool
  holds_of none f = true
  holds_of (some t) f = f t

  -- A new awaiter awaits, one that waits is cancelled, an operation that runs completes, and no result
  -- is taken while others wait for an operation without one.
  abbrev pub allowed : Call A → State A → Bool
  allowed (awaits i r o m) s = not (has i s.parents)
  allowed (awaits_cancelled i now r o m) s = not (has i s.parents)
  allowed (cancels i o m) s = has i s.parents
  allowed (completed m) s = not (is_empty s.parents)
  allowed (takes i optional o) s = is_empty s.parents || not (is_incomplete s.result)

module _ {A : Type 0} (on_wake : ℕ → List ℕ) where
  unfoldable pub step : Call A → State A → Option (State A)
  step (awaits i r o m) s = some (suspend_unless_ready on_wake i r o m (construct i s))
  step (awaits_cancelled i now r o m) s =
      some (unless_skipped on_wake i r o m (await_early_cancel i now (construct i s)))
  step (cancels i o m) s = left_by (await_cancel on_wake i o m s)
  step (completed m) s = some (invoke on_wake m s)
  step (takes i optional o) s = some (await_resume i optional o s).0

  unfoldable pub run : List (Call A) → State A → Option (State A)
  unfolding step
  run [] s = some s
  run (c ∷ cs) s = and_then (step c s) (run cs)

  unfoldable pub all_allowed : List (Call A) → State A → Bool
  unfolding step
  all_allowed [] s = true
  all_allowed (c ∷ cs) s = allowed c s && holds_of (step c s) (all_allowed cs)

module _ {A : Type 0} (on_wake : ℕ → List ℕ) where
  pub step-Inv :
      (c : Call A) (s : State A)
      → allowed c s ≡ true
      → Inv s
      → (t : State A) × (step on_wake c s ≡ some t) × Inv t
  unfolding step
  step-Inv (awaits i r o m) s ok v = (
    suspend_unless_ready on_wake i r o m (construct i s),
    refl,
    suspend_unless_ready-Inv on_wake i r o m (construct i s) (ground (arith, ok))
        (construct-Inv i s v),
  )
  step-Inv (awaits_cancelled i now r o m) s ok v =
      let q = await_early_cancel i now (construct i s) in
      (
        unless_skipped on_wake i r o m q,
        refl,
        unless_skipped-Inv on_wake i r o m q.0 q.1
            (await_early_cancel-new i i now (construct i s) (ground (arith, ok)))
            (await_early_cancel-Inv i now (construct i s) (ground (arith, ok))
              (construct-Inv i s v)),
      )
  step-Inv (cancels i o m) s ok v =
      let (t, b, e, w) = cancel-Inv on_wake i o m s ok v in
      let attached = linked-attached s.attached i s.parents v.linked ok in
      let done : await_cancel on_wake i o m s ≡ some (t, b) = rw attached e in
      (t, ap left_by done, w)
  step-Inv (completed m) s ok v = (invoke on_wake m s, refl, invoke-Inv on_wake m s)
  step-Inv (takes i optional o) s ok v =
      ((await_resume i optional o s).0, refl, await_resume-Inv i optional o s ok v)

  -- A shared operation is in a state in which the parents that wait are attached and wait once each, for
  -- an operation without a result, the oldest of them is the one that a backtrace shows, and an operation
  -- that is being cancelled has only one. A task awaits with an awaiter that does not wait, one that
  -- waits is cancelled, the operation completes while somebody waits, and nobody takes a result while
  -- others wait for an operation without one (so not where a task awaits between a completion and the
  -- first taking of its result, by which the operation is started again). Then, whatever the operation
  -- answers and whatever parents cancel one another as they are resumed, no assertion of `cancel` fails,
  -- and the state stays such.
  pub run-Inv_shared :
      (cs : List (Call A)) (s : State A)
      → all_allowed on_wake cs s ≡ true
      → Inv s
      → (t : State A) × (run on_wake cs s ≡ some t) × Inv t
  unfolding run all_allowed
  run-Inv_shared [] s ok v = (s, refl, v)
  run-Inv_shared (c ∷ cs) s ok v =
      let (t, e, w) = step-Inv c s (ground (arith, ok)) v in
      let (u, f, x) =
        run-Inv_shared cs t (ground (arith, ok, ap (λ o. holds_of o (all_allowed on_wake cs)) e))
          w in
      (u, ap (λ o. and_then o (run on_wake cs)) e ∙ f, x)
