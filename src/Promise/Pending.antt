-- ===== src/Promise/Pending.antt =====
-- A cancellation that a task (corral/detail/Promise.h) cannot act on yet.
use corral.Base.{◌≡◌, refl, Bool, true, false, not, ◌&&◌, List, [], ◌∷◌, arith}
use corral.Promise.{
  Awaitee, Activity, ready, running, awaiting, Trampoline, do_resume, do_resume_after_cancel,
  do_nothing, Promise, resume_by, cancel_from, cancel, hook_await_suspend, await,
}
use corral.Promise.Live.{is_running, has_awaiter, Inv}
use corral.Promise.Outcome.{
  Call, resumed, cancels, runs, finishes, awaits, allowed, step, step-Inv, all_allowed, happens,
  happens-Inv,
}

abbrev pub is_quiet : Call → Bool
is_quiet (awaits a) = false
is_quiet finishes = false
is_quiet _ = true

unfoldable pub all_quiet : List Call → Bool
all_quiet [] = true
all_quiet (c ∷ cs) = is_quiet c && all_quiet cs

-- A task that was asked to cancel while it did not await.
abbrev Asked : Promise → Type 0
Asked p = (p.requested ≡ true) × (has_awaiter p.activity ≡ false)

resume-Asked :
    (s : Activity) (t : Trampoline) (p : Promise)
    → Inv (record p { activity = s; on_resume = t })
    → (p.parent && not (is_running s)) ≡ true
    → Asked (record p { activity = s; on_resume = t })
    → Asked (resume_by t (record p { activity = s; on_resume = t }))
unfolding resume_by
resume-Asked s do_nothing p v ok h = h
resume-Asked s do_resume p v ok h = (h.0, refl)
resume-Asked ready do_resume_after_cancel p v ok h = absurd (ground (arith, v.plain))
resume-Asked running do_resume_after_cancel p v ok h = absurd (ground (arith, ok))
resume-Asked (awaiting a) do_resume_after_cancel p v ok h = absurd (ground (arith, h.1))

cancel-Asked :
    (s : Activity) (p : Promise)
    → has_awaiter s ≡ false
    → Asked (cancel_from s (record p { activity = s }))
unfolding cancel_from
cancel-Asked ready p h = (refl, refl)
cancel-Asked running p h = (refl, refl)
cancel-Asked (awaiting a) p h = absurd (ground (arith, h))

step-Asked :
    (c : Call) (p : Promise)
    → Inv p
    → allowed c p ≡ true
    → is_quiet c ≡ true
    → Asked p
    → Asked (step c p)
unfolding step allowed
step-Asked resumed p v ok q h = resume-Asked p.activity p.on_resume p v ok h
step-Asked cancels p v ok q h = cancel-Asked p.activity p h.1
step-Asked runs p v ok q h = (h.0, refl)
step-Asked finishes p v ok q h = absurd (ground (arith, q))
step-Asked (awaits a) p v ok q h = absurd (ground (arith, q))

happens-Asked :
    (cs : List Call) (p : Promise)
    → Inv p
    → all_allowed cs p ≡ true
    → all_quiet cs ≡ true
    → Asked p
    → Asked (happens cs p)
unfolding happens all_allowed all_quiet
happens-Asked [] p v ok q h = h
happens-Asked (c ∷ cs) p v ok q h =
    happens-Asked cs (step c p) (step-Inv c p v (ground (arith, ok))) (ground (arith, ok))
      (ground (arith, q)) (step-Asked c p v (ground (arith, ok)) (ground (arith, q)) h)

-- A cancellation that is requested of a task that does not await is kept until it next awaits, however
-- often it is resumed, run and cancelled until then; and if what it awaits then can be cancelled early,
-- the task ends there, cancelled and with nothing stored.
pub await-asked :
    (cs : List Call) (a : Awaitee) (p : Promise)
    → Inv p
    → has_awaiter p.activity ≡ false
    → all_quiet cs ≡ true
    → all_allowed (cancels ∷ cs) p ≡ true
    → allowed (awaits a) (happens (cancels ∷ cs) p) ≡ true
    → a.await_early_cancel ≡ true
    → let q = await a (happens (cancels ∷ cs) p) in
      (q.parent ≡ false) × (q.cancelled ≡ 1) × (q.stored ≡ 0)
unfolding happens all_allowed allowed step await hook_await_suspend
await-asked cs a p v idle quiet ok can early =
    let w = step-Inv cancels p v (ground (arith, ok)) in
    let t = happens cs (cancel p) in
    let x = happens-Inv cs (cancel p) w (ground (arith, ok)) in
    let h =
      happens-Asked cs (cancel p) w (ground (arith, ok)) quiet (cancel-Asked p.activity p idle) in
    let has : t.parent ≡ true = ground (arith, can) in
    simp (h.0, early, has)
      (refl, ground (arith, x.ended, x.outcome, has), ground (arith, x.ended, x.outcome, has))
