-- ===== src/Shared/Cancel.antt =====
-- Cancelling one of the parents of a shared operation (corral/Shared.h).
use corral.Base.{
  ℕ, ◌+◌, ◌≡◌, refl, sym, ◌∙◌, ap, Bool, true, false, not, ◌&&◌, ◌||◌, ◌==◌, List, [], ◌∷◌, some,
  has, remove, if◌then◌else◌, arith, remove-head,
}
use corral.Promise.{OnCancel, completes, waits, resumes}
use corral.Shared.{
  Result, incomplete, cancelling, cancelled, State, is_cancelling, contains_one_item, front_or,
  drop_parent, forward_cancel, cancel, await_cancel,
}
use corral.Shared.Invoke.{invoke-serves}
use corral.Shared.Inv.{Inv, only_item, linked-attached}

-- What the operation's answer makes of the result when the last parent is cancelled.
abbrev pub result_after : {A : Type 0} → OnCancel → Bool → Result A
result_after completes must = cancelled
result_after waits must = cancelling
result_after resumes must = if must then incomplete else cancelled

abbrev pub completes_now : OnCancel → Bool
completes_now completes = true
completes_now _ = false

-- Whether the only parent is left waiting.
abbrev pub keeps_waiting : OnCancel → Bool
keeps_waiting waits = true
keeps_waiting _ = false

module _ {A : Type 0} (on_wake : ℕ → List ℕ) where
  -- The effect of a cancellation with two answers.
  abbrev Cancelled : ℕ → OnCancel → Bool → State A → State A → Bool → Type 0
  Cancelled i o must s t now =
      (now ≡ (not (contains_one_item s.parents) || completes_now o))
      × (t.cancels ≡ s.cancels + (if contains_one_item s.parents then 1 else 0))
      × (t.starts ≡ s.starts)
      × (t.result ≡ (if contains_one_item s.parents then result_after o must else s.result))
      × (t.parents ≡ (
          if contains_one_item s.parents && keeps_waiting o then s.parents else remove i s.parents))

  forward_lem :
      (i : ℕ) (o : OnCancel) (must : Bool) (s : State A)
      → s.parents ≡ i ∷ []
      → s.result ≡ cancelling
      → let q = forward_cancel on_wake i o must s in
        (q.1 ≡ completes_now o)
        × (q.0.cancels ≡ s.cancels)
        × (q.0.starts ≡ s.starts)
        × (q.0.result ≡ result_after o must)
        × (q.0.parents ≡ (if keeps_waiting o then s.parents else remove i s.parents))
  unfolding forward_cancel has
  forward_lem i completes must s p r = (refl, refl, refl, refl, refl)
  forward_lem i waits must s p r = (refl, refl, refl, r, refl)
  forward_lem i resumes must s p r =
      let v = invoke-serves on_wake must s i (ground (arith, ap (has i) p)) in
      (
        refl,
        v.3,
        v.2,
        ground (arith, v.4, ap is_cancelling r),
        v.1 ∙ sym (ap (remove i) p ∙ remove-head i []),
      )

  -- Cancelling a parent that waits, one of several, succeeds at once and drops it: the operation is
  -- not told and its result is as it was. Cancelling the only one cancels the operation, once, and
  -- ends as the operation answers: at once, later, or after the operation has completed.
  pub await_cancel_lem :
      (i : ℕ) (o : OnCancel) (must : Bool) (s : State A)
      → has i s.parents ≡ true
      → Inv s
      → (t : State A) × (now : Bool) × (await_cancel on_wake i o must s ≡ some (t, now))
        × Cancelled i o must s t now
  unfolding cancel drop_parent
  await_cancel_lem i o must s h v =
      let on = linked-attached s.attached i s.parents v.linked h in
      rw on (by_count (contains_one_item s.parents) refl)
    where
      by_count :
          (one : Bool)
          → contains_one_item s.parents ≡ one
          → (t : State A) × (now : Bool) × (cancel on_wake i o must s ≡ some (t, now))
            × Cancelled i o must s t now
      by_count true one =
          let p = only_item i s.parents one h in
          let q = record s { result = cancelling; cancels = s.cancels + 1 } in
          let w = forward_lem i o must q p refl in
          let front : (front_or 0 s.parents == i) ≡ true = rw p (ground arith) in
          rw (one, front)
            (
              (forward_cancel on_wake i o must q).0,
              (forward_cancel on_wake i o must q).1,
              refl,
              (w.0, w.1, w.2, w.3, w.4),
            )
      by_count false many =
          rw many (drop_parent i s, true, refl, (refl, omega arith, refl, refl, refl))
