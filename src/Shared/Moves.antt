-- ===== src/Shared/Moves.antt =====
-- Suspending, completing and cancelling keep the invariant of a shared operation (corral/Shared.h).
use corral.Base.{
  ℕ, ◌+◌, ◌≡◌, refl, sym, ◌∙◌, ap, Bool, true, false, ◌==◌, List, [], ◌∷◌, ◌++◌, some, has, remove,
  remove-head, remove-nil, snoc-IsUnique, Bool-cases, inl, inr, arith,
}
use corral.Promise.{OnCancel, completes, waits, resumes}
use corral.Shared.{
  exception, cancelling, cancelled, OnSuspend, suspends, continues, throws, State, is_incomplete,
  is_cancelling, is_empty, contains_one_item, front_or, detach, await_ready, drop_parent, unlink,
  settle_cancel, invoke, start, suspend, forward_cancel, cancel,
}
use corral.Shared.Invoke.{invoke-Woken}
use corral.Shared.Inv.{
  Inv, done-Inv, is_empty-eq_nil, only_item, has-not_empty, front_or-append, snoc-linked,
  cancelling_one-Inv, drop_parent-Inv,
}
use corral.Shared.{suspend_unless_ready, unless_skipped}

module _ {A : Type 0} (on_wake : ℕ → List ℕ) where
  pub settled_not_cancelling :
      (must : Bool) (s : State A) → is_cancelling (settle_cancel must s).result ≡ false
  settled_not_cancelling must s = ground arith

  pub invoke-Inv : (must : Bool) (s : State A) → Inv (invoke on_wake must s)
  invoke-Inv must s =
      let v = invoke-Woken on_wake must s in
      done-Inv (invoke on_wake must s) v.none_waits v.none_waking
        (ap is_cancelling v.same.result ∙ settled_not_cancelling must s)

  pub start-Inv : (o : OnSuspend) (must : Bool) (s : State A) → Inv s → Inv (start on_wake o must s)
  unfolding start
  start-Inv suspends must s v = v
  start-Inv continues must s v = invoke-Inv must s
  start-Inv (throws e) must s v = invoke-Inv must (record s { result = exception e })

  pub suspend-Inv :
      (i : ℕ) (o : OnSuspend) (must : Bool) (s : State A)
      → has i s.parents ≡ false
      → s.attached i ≡ true
      → is_incomplete s.result ≡ true
      → Inv s
      → Inv (suspend on_wake i o must s)
  unfolding suspend
  suspend-Inv i o must s new on e v = elim (Bool-cases (is_empty s.parents)) [
    | inl first ↦ rw first (
        let p = is_empty-eq_nil s.parents first in
        start-Inv o must _ (record {
          unique = snoc-IsUnique i s.parents v.unique new;
          quiet = v.quiet;
          oldest = sym (ap (λ (xs : List ℕ). front_or i (xs ++ i ∷ [])) p);
          unfinished = ground (arith, e);
          alone = ground (arith, e);
          linked = snoc-linked s.attached i s.parents v.linked on;
        }))
    | inr later ↦ rw later (record {
      unique = snoc-IsUnique i s.parents v.unique new;
      quiet = v.quiet;
      oldest = v.oldest ∙ sym (front_or-append s.caller s.parents (i ∷ []) later);
      unfinished = ground (arith, v.unfinished, later);
      alone = ground (arith, e);
      linked = snoc-linked s.attached i s.parents v.linked on;
    })
  ]

  pub suspend_unless_ready-Inv :
      (i : ℕ) (r : Bool) (o : OnSuspend) (must : Bool) (s : State A)
      → has i s.parents ≡ false
      → Inv s
      → Inv (suspend_unless_ready on_wake i r o must s)
  suspend_unless_ready-Inv i r o must s new v = elim (Bool-cases (await_ready i r s)) [
    | inl e ↦ rw e v
    | inr e ↦ rw e (suspend-Inv i o must s new (ground (arith, e)) (ground (arith, e)) v)
  ]

  pub forward_cancel-Inv :
      (i : ℕ) (o : OnCancel) (must : Bool) (s : State A)
      → s.parents ≡ i ∷ []
      → s.waking ≡ []
      → Inv s
      → Inv (forward_cancel on_wake i o must s).0
  unfolding forward_cancel
  forward_cancel-Inv i completes must s p w v =
      done-Inv (detach i (unlink i (record s { result = cancelled })))
        (ap (remove i) p ∙ remove-head i []) (ap (remove i) w ∙ remove-nil i) refl
  forward_cancel-Inv i waits must s p w v = v
  forward_cancel-Inv i resumes must s p w v = invoke-Inv must s

  -- A waiting parent is cancelled without a failed assertion.
  pub cancel-Inv :
      (i : ℕ) (o : OnCancel) (must : Bool) (s : State A)
      → has i s.parents ≡ true
      → Inv s
      → (t : State A) × (b : Bool) × (cancel on_wake i o must s ≡ some (t, b)) × Inv t
  unfolding cancel
  cancel-Inv i o must s h v = elim (Bool-cases (contains_one_item s.parents)) [
    | inl one ↦ rw one (
        let p = only_item i s.parents one h in
        let q = record s { result = cancelling; cancels = s.cancels + 1 } in
        rw (let e : (front_or 0 s.parents == i) ≡ true = rw p (ground arith) in e) (
          (forward_cancel on_wake i o must q).0,
          (forward_cancel on_wake i o must q).1,
          refl,
          forward_cancel-Inv i o must q p v.quiet (cancelling_one-Inv s one v),
        ))
    | inr many ↦
        rw many
          (drop_parent i s, true, refl, drop_parent-Inv i s many (has-not_empty i s.parents h) v)
  ]

  pub unless_skipped-Inv :
      (i : ℕ) (r : Bool) (o : OnSuspend) (must : Bool) (s : State A) (skipped : Bool)
      → has i s.parents ≡ false
      → Inv s
      → Inv (unless_skipped on_wake i r o must (s, skipped))
  unless_skipped-Inv i r o must s true new v = v
  unless_skipped-Inv i r o must s false new v = suspend_unless_ready-Inv i r o must s new v
