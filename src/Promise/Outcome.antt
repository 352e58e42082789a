-- ===== src/Promise/Outcome.antt =====
-- How a task (corral/detail/Promise.h) ends, whatever its awaitees do and whenever it is cancelled.
use corral.Base.{
  ◌≡◌, refl, subst, sym, Bool, true, false, not, ◌&&◌, ◌==◌, List, [], ◌∷◌, Bool-cases, inl, inr,
  arith,
}
use corral.Promise.{
  OnCancel, completes, waits, resumes, OnSuspend, suspends, continues, throws, Awaitee, Activity,
  ready, running, awaiting, Trampoline, do_resume, do_resume_after_cancel, do_nothing, Promise,
  started, resume_after_cancel, resume_by, resume, forward_cancel, cancel_from, cancel, run,
  suspend_by, hook_await_suspend, hook_asked, await, finish,
}
use corral.Promise.Live.{
  is_running, is_nothing, has_awaiter, Inv, started-Inv, Live, Inv-Live, Live-update, schedule-Inv,
  propagate_cancel-Inv, waits-Inv, runs-Inv, resume_after_cancel-Inv,
}

resume-Inv :
    (s : Activity) (t : Trampoline) (p : Promise)
    → Inv (record p { activity = s; on_resume = t })
    → (p.parent && not (is_running s)) ≡ true
    → Inv (resume_by t (record p { activity = s; on_resume = t }))
unfolding resume_by
resume-Inv running t p v ok = absurd (ground (arith, ok))
resume-Inv s do_nothing p v ok = v
resume-Inv s do_resume p v ok =
    schedule-Inv (record p { activity = s; on_resume = do_resume })
      (Inv-Live (record p { activity = s; on_resume = do_resume }) v (ground (arith, ok))
        (ground arith))
resume-Inv ready do_resume_after_cancel p v ok = absurd (ground (arith, v.plain))
resume-Inv (awaiting a) do_resume_after_cancel p v ok =
    let l =
      Inv-Live (record p { activity = awaiting a; on_resume = do_resume_after_cancel }) v
        (ground (arith, ok)) refl in
    subst
      (λ r. Inv (
        resume_after_cancel (awaiting a)
          (record p { activity = awaiting a; requested = r; on_resume = do_resume_after_cancel })))
      (sym v.unasked)
      (resume_after_cancel-Inv a (record p { on_resume = do_resume_after_cancel })
        (Live-update p.activity p.requested do_resume_after_cancel l))

forward_cancel-Inv :
    (a : Awaitee) (o : OnCancel) (p : Promise)
    → Live p
    → Inv (
        forward_cancel a o (record p {
          activity = awaiting a;
          requested = false;
          on_resume = do_resume_after_cancel;
        }))
forward_cancel-Inv a completes p l =
    propagate_cancel-Inv
      (record p { activity = awaiting a; requested = false; on_resume = do_resume_after_cancel })
      (Live-update (awaiting a) false do_resume_after_cancel l) refl refl
forward_cancel-Inv a waits p l =
    waits-Inv a (record p { on_resume = do_resume_after_cancel })
      (Live-update p.activity p.requested do_resume_after_cancel l) refl
forward_cancel-Inv a resumes p l =
    resume_after_cancel-Inv a (record p { on_resume = do_resume_after_cancel })
      (Live-update p.activity p.requested do_resume_after_cancel l)

suspend_by-Inv :
    (a : Awaitee) (o : OnSuspend) (asked : Bool) (t : Trampoline) (p : Promise)
    → Live p
    → is_nothing t ≡ false
    → Inv
        (suspend_by o asked (record p { activity = awaiting a; requested = false; on_resume = t }))
unfolding resume_by
suspend_by-Inv a suspends asked t p l h =
    waits-Inv a (record p { on_resume = t }) (Live-update p.activity p.requested t l) h
suspend_by-Inv a continues asked t p l h =
    resume-Inv (awaiting a) t (record p { requested = false })
      (waits-Inv a (record p { on_resume = t }) (Live-update p.activity p.requested t l) h)
      (ground (arith, l.attached))
suspend_by-Inv a throws asked t p l h =
    runs-Inv (record p { requested = asked; on_resume = t }) (Live-update p.activity asked t l)

hook_asked-Inv :
    (a : Awaitee) (p : Promise)
    → Live p
    → Inv (hook_asked a (record p { activity = awaiting a; requested = false }))
unfolding resume_by
hook_asked-Inv a p l = elim (Bool-cases a.await_early_cancel) [
  | inl early ↦ simp early (
      propagate_cancel-Inv (record p { activity = awaiting a; requested = false })
        (Live-update (awaiting a) false p.on_resume l) refl refl)
  | inr late ↦ elim (Bool-cases a.await_ready) [
    | inl at_once ↦
        simp (late, at_once)
          (resume_after_cancel-Inv a (record p { on_resume = do_resume_after_cancel })
            (Live-update p.activity p.requested do_resume_after_cancel l))
    | inr later ↦
        simp (late, later) (suspend_by-Inv a a.await_suspend true do_resume_after_cancel p l refl)
  ]
]

-- A request that is noted, or taken back, by a task that does not await.
request-Inv :
    (r : Bool) (p : Promise)
    → Inv p
    → has_awaiter p.activity ≡ false
    → Inv (record p { requested = r })
request-Inv r p v idle = record {
  ended = v.ended;
  outcome = v.outcome;
  steps = v.steps;
  waiting = v.waiting;
  woken = v.woken;
  unasked = ground (arith, idle);
  plain = v.plain;
  sound = v.sound;
}

cancel-Inv :
    (s : Activity) (p : Promise)
    → Inv (record p { activity = s })
    → p.parent ≡ true
    → Inv (cancel_from s (record p { activity = s }))
unfolding cancel_from
cancel-Inv ready p v ok = request-Inv true (record p { activity = ready }) v refl
cancel-Inv running p v ok = request-Inv true (record p { activity = running }) v refl
cancel-Inv (awaiting a) p v ok =
    let l = Inv-Live (record p { activity = awaiting a }) v ok refl in
    subst
      (λ r. Inv (
        forward_cancel a a.await_cancel
          (record p { activity = awaiting a; requested = r; on_resume = do_resume_after_cancel })))
      (sym v.unasked)
      (forward_cancel-Inv a a.await_cancel p (Live-update p.activity p.requested p.on_resume l))

run-Inv :
    (s : Activity) (p : Promise)
    → Inv (record p { activity = s })
    → not (p.scheduled == 0) ≡ true
    → Inv (run (record p { activity = s }))
run-Inv ready p v ok = record {
  ended = v.ended;
  outcome = v.outcome;
  steps = ground (arith, v.steps);
  waiting = refl;
  woken = ground (arith, v.waiting);
  unasked = refl;
  plain = refl;
  sound = v.sound;
}
run-Inv running p v ok = absurd (ground (arith, v.steps, ok))
run-Inv (awaiting a) p v ok = absurd (ground (arith, v.steps, ok))

await-Inv :
    (a : Awaitee) (p : Promise)
    → Inv (record p { activity = running })
    → p.parent ≡ true
    → Inv (await a (record p { activity = running }))
unfolding await hook_await_suspend
await-Inv a p v ok =
    let l =
      Live-update p.activity p.requested p.on_resume
        (Inv-Live (record p { activity = running }) v ok refl) in
    elim (Bool-cases p.requested) [
      | inl asked ↦ simp asked (hook_asked-Inv a p l)
      | inr free ↦ elim (Bool-cases a.await_ready) [
        | inl at_once ↦
            simp (free, at_once) (request-Inv false (record p { activity = running }) v refl)
        | inr later ↦ simp (free, later) (suspend_by-Inv a a.await_suspend false do_resume p l refl)
      ]
    ]

finish-Inv :
    (p : Promise)
    → Inv (record p { activity = running })
    → p.parent ≡ true
    → Inv (finish (record p { activity = running }))
unfolding finish
finish-Inv p v ok = rw ok (record {
  ended = ground (arith, v.ended, ok);
  outcome = ground (arith, v.outcome, v.ended, ok);
  steps = v.steps;
  waiting = refl;
  woken = refl;
  unasked = refl;
  plain = refl;
  sound = v.sound;
})

-- A call that is allowed only to a task that runs.
running-only :
    (P : Promise → Type 0) (s : Activity) (p : Promise)
    → (p.parent && is_running s) ≡ true
    → (p.parent ≡ true → P (record p { activity = running }))
    → P (record p { activity = s })
running-only P running p ok f = f (ground (arith, ok))
running-only P ready p ok f = absurd (ground (arith, ok))
running-only P (awaiting a) p ok f = absurd (ground (arith, ok))

-- What happens to a task, and when it may: it is resumed while it has a parent and is not running, and
-- cancelled while it has a parent; the executor runs the steps that it has; a running task awaits or ends.
pub data Call : Type 0 where
  resumed cancels runs finishes : Call
  awaits : Awaitee → Call

unfoldable pub allowed : Call → Promise → Bool
allowed resumed p = p.parent && not (is_running p.activity)
allowed cancels p = p.parent
allowed runs p = not (p.scheduled == 0)
allowed finishes p = p.parent && is_running p.activity
allowed (awaits a) p = p.parent && is_running p.activity

unfoldable pub step : Call → Promise → Promise
step resumed p = resume p
step cancels p = cancel p
step runs p = run p
step finishes p = finish p
step (awaits a) p = await a p

pub step-Inv : (c : Call) (p : Promise) → Inv p → allowed c p ≡ true → Inv (step c p)
unfolding step allowed
step-Inv resumed p v ok = resume-Inv p.activity p.on_resume p v ok
step-Inv cancels p v ok = cancel-Inv p.activity p v ok
step-Inv runs p v ok = run-Inv p.activity p v ok
step-Inv finishes p v ok =
    running-only (λ q. Inv q → Inv (finish q)) p.activity p ok (λ has w. finish-Inv p w has) v
step-Inv (awaits a) p v ok =
    running-only (λ q. Inv q → Inv (await a q)) p.activity p ok (λ has w. await-Inv a p w has) v

unfoldable pub all_allowed : List Call → Promise → Bool
unfolding allowed step
all_allowed [] p = true
all_allowed (c ∷ cs) p = let rest = all_allowed cs (step c p) in allowed c p && rest

unfoldable pub happens : List Call → Promise → Promise
unfolding step
happens [] p = p
happens (c ∷ cs) p = happens cs (step c p)

pub happens-Inv :
    (cs : List Call) (p : Promise) → Inv p → all_allowed cs p ≡ true → Inv (happens cs p)
unfolding happens all_allowed
happens-Inv [] p v ok = v
happens-Inv (c ∷ cs) p v ok =
    happens-Inv cs (step c p) (step-Inv c p v (ground (arith, ok))) (ground (arith, ok))

-- From its start on, in whatever order a task is resumed, cancelled and run, and whatever its awaitees
-- answer, as long as nobody resumes it while it runs or after its end, nor cancels it after its end: its
-- parent goes on at most once, with exactly one outcome, a cancellation or what the coroutine stored; the
-- executor never has more than one step of it; and no call is made on a parent that it has left.
pub happens-started : (cs : List Call) → all_allowed cs started ≡ true → Inv (happens cs started)
happens-started cs ok = happens-Inv cs started started-Inv ok
