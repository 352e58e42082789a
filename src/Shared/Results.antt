-- ===== src/Shared/Results.antt =====
-- Results of a shared operation (corral/Shared.h).
use corral.Base.{
  ℕ, ◌≡◌, refl, sym, ◌∙◌, ap, Bool, true, false, List, [], ◌∷◌, some, Bool-cases, inl, inr, arith,
}
use corral.Shared.{
  Result, incomplete, value, exception, cancelling, cancelled, OnSuspend, Outcome, Answer, State,
  construct, await_ready, early_cancel, await_early_cancel, await_resume, fetch, answer,
  suspend_unless_ready,
}
use corral.Shared.Inv.{Inv, is_open, has-not_empty}
use corral.Shared.Runs.{
  Call, awaits, awaits_cancelled, cancels, completed, takes, allowed, holds_of, and_then, step, run,
  all_allowed, step-Inv,
}

-- The operation has returned or thrown, or its cancellation has succeeded.
abbrev pub is_settled : {A : Type 0} → Result A → Bool
is_settled (value a) = true
is_settled (exception e) = true
is_settled cancelled = true
is_settled _ = false

not_open : {A : Type 0} (r : Result A) → is_settled r ≡ true → is_open r ≡ false
not_open incomplete h = cc
not_open cancelling h = cc
not_open _ h = refl

module _ {A : Type 0} (on_wake : ℕ → List ℕ) where
  -- Nothing is done to the operation.
  abbrev Rests : State A → State A → Type 0
  Rests s t = (t.result ≡ s.result) × (t.starts ≡ s.starts) × (t.cancels ≡ s.cancels)

  unless_ready-Rests :
      (i : ℕ) (r : Bool) (o : OnSuspend) (m : Bool) (s : State A)
      → is_settled s.result ≡ true
      → suspend_unless_ready on_wake i r o m s ≡ s
  unless_ready-Rests i r o m s h = elim (Bool-cases (await_ready i r s)) [
    | inl e ↦ rw e
    | inr e ↦ absurd (ground (arith, h, e))
  ]

  skips-settled :
      (i : ℕ) (now : Bool) (s : State A)
      → is_settled s.result ≡ true
      → Rests s (await_early_cancel i now s).0 × ((await_early_cancel i now s).1 ≡ true)
  unfolding early_cancel
  skips-settled i now s h = ground (arith, h)

  step-Rests :
      (c : Call A) (s t : State A)
      → allowed c s ≡ true
      → Inv s
      → is_settled s.result ≡ true
      → step on_wake c s ≡ some t
      → Rests s t
  unfolding step await_resume
  step-Rests (awaits i r o m) s t ok v h e =
      ground (arith, e, unless_ready-Rests i r o m (construct i s) h)
  step-Rests (awaits_cancelled i now r o m) s t ok v h e =
      ground (arith, e, skips-settled i now (construct i s) h)
  step-Rests (cancels i o m) s t ok v h e =
      absurd (ground (arith, h, v.unfinished, not_open s.result h, has-not_empty i s.parents ok))
  step-Rests (completed m) s t ok v h e =
      absurd (ground (arith, h, v.unfinished, not_open s.result h, ok))
  step-Rests (takes i optional o) s t ok v h e = ground (arith, e, h)

  run-Rests :
      (cs : List (Call A)) (s t : State A)
      → all_allowed on_wake cs s ≡ true
      → Inv s
      → is_settled s.result ≡ true
      → run on_wake cs s ≡ some t
      → Rests s t
  unfolding run all_allowed
  run-Rests [] s t ok v h e = ground (arith, e)
  run-Rests (c ∷ cs) s t ok v h e =
      let (u, f, w) = step-Inv on_wake c s (ground (arith, ok)) v in
      let k = step-Rests c s u (ground (arith, ok)) v h f in
      let l =
        run-Rests cs u t (ground (arith, ok, ap (λ o. holds_of o (all_allowed on_wake cs)) f)) w
          (ap is_settled k.0 ∙ h) (sym (ap (λ o. and_then o (run on_wake cs)) f) ∙ e) in
      (l.0 ∙ k.0, l.1 ∙ k.1, l.2 ∙ k.2)

  -- The result of a shared operation, a value, an exception or a cancellation, is there, and nobody waits
  -- any more, as is so in a state of the invariant. Then the result never changes and the operation is
  -- neither started nor cancelled again, if awaiters await that do not wait, none that does not wait is
  -- cancelled, and results are taken; and whichever attached awaiter takes the result then gets this one,
  -- without asking the operation. (A result that is taken while others wait for an operation that was
  -- started again is not among these.)
  pub run-settled :
      (cs : List (Call A)) (s t : State A) (i : ℕ) (optional : Bool) (o : Outcome A)
      → all_allowed on_wake cs s ≡ true
      → Inv s
      → is_settled s.result ≡ true
      → run on_wake cs s ≡ some t
      → t.attached i ≡ true
      → (t.result ≡ s.result)
        × (t.starts ≡ s.starts)
        × (t.cancels ≡ s.cancels)
        × (await_resume i optional o t ≡ (t, answer optional s.result))
  unfolding await_resume
  run-settled cs s t i optional o ok v h e on =
      let k = run-Rests cs s t ok v h e in
      (k.0, k.1, k.2, rw on (takes_settled (ap is_settled k.0 ∙ h) k.0))
    where
      takes_settled :
          is_settled t.result ≡ true
          → t.result ≡ s.result
          → ◌≡◌ {A = State A × Answer A}
              (fetch o t, answer optional (fetch o t).result)
              (t, answer optional s.result)
      takes_settled g q = ground (arith, g, ap (answer optional) q)
