-- ===== src/Shared/Early.antt =====
-- A shared operation (corral/Shared.h) awaited by a task that is being and one awaited
-- again before its result is taken.
use corral.Shared.Invoke.{invoke-Woken}
use corral.Shared.{settle_cancel}
use corral.Base.{◌∙◌, ℕ, ◌+◌, ◌≡◌, refl, ◌∙◌, ap, Bool, true, false, List, [], ◌∷◌, ◌++◌, arith}
use corral.Shared.{
  incomplete, OnSuspend, suspends, Outcome, State, is_incomplete, is_empty, construct, early_cancel,
  await_early_cancel, await_must_resume, await_resume, store, answer, settle_cancel, invoke, start,
  suspend, suspend_unless_ready,
}
use corral.Shared.Invoke.{invoke-Woken}

settle_cancel_lem :
    {A : Type 0} (must : Bool) (s : State A)
    → is_incomplete s.result ≡ true
    → let t = settle_cancel must s in (t.result ≡ s.result) × (t.starts ≡ s.starts)
settle_cancel_lem must s e = ground (arith, e)

module _ {A : Type 0} (on_wake : ℕ → List ℕ) where
  -- A task of which a cancellation is requested awaits a shared operation that nobody has awaited and
  -- that cannot be cancelled early. It does not suspend, even if the operation is not ready: the
  -- operation, never started, is asked whether its result must be taken, and for the result.
  pub early_cancel-unstarted :
      (i : ℕ) (r must optional : Bool) (o : OnSuspend) (out : Outcome A) (s : State A)
      → s.parents ≡ []
      → s.result ≡ incomplete
      → s.attached i ≡ true
      → let q = await_early_cancel i false s in
        (q.1 ≡ false)
        × (q.0.starts ≡ s.starts)
        × (suspend_unless_ready on_wake i r o must q.0 ≡ q.0)
        × (await_must_resume i must q.0 ≡ must)
        × ((await_resume i optional out q.0).1 ≡ answer optional (store out))
  unfolding early_cancel await_resume
  early_cancel-unstarted i r must optional o out s p e on =
      rw on (rw (ap is_empty p) (rw (ap is_incomplete e) (refl, refl, rw on, rw on, rw on)))

  starts_anew :
      (i : ℕ) (m : Bool) (s : State A)
      → s.parents ≡ []
      → is_incomplete s.result ≡ true
      → let u = suspend_unless_ready on_wake i false suspends m (construct i s) in
        (u.starts ≡ s.starts + 1)
        × (u.parents ≡ i ∷ [])
        × (u.woken ≡ s.woken)
        × (is_incomplete u.result ≡ true)
  unfolding suspend start
  starts_anew i m s p e = ground (arith, e, ap is_empty p, ap (λ (xs : List ℕ). xs ++ i ∷ []) p)

  -- An operation completes, and before the first of its parents takes the result another task awaits
  -- it. If the operation does not say that it is ready, it is started once more, and the newcomer
  -- waits for this.
  pub invoke-restarts :
      (i : ℕ) (must m : Bool) (s : State A)
      → is_incomplete s.result ≡ true
      → let t = invoke on_wake must s in
        let u = suspend_unless_ready on_wake i false suspends m (construct i t) in
        (u.starts ≡ s.starts + 1)
        × (u.parents ≡ i ∷ [])
        × (u.woken ≡ t.woken)
        × (is_incomplete u.result ≡ true)
  invoke-restarts i must m s e =
      let v = invoke-Woken on_wake must s in
      let k = settle_cancel_lem must s e in
      let w =
        starts_anew i m (invoke on_wake must s) v.none_waits
          (ap is_incomplete (v.same.result ∙ k.0) ∙ e) in
      (w.0 ∙ ap (λ n. n + 1) (v.same.starts ∙ k.1), w.1, w.2, w.3)
