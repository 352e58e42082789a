-- ===== src/Promise.antt =====
-- corral/detail/Promise.h: the part of a task's promise that resumes and cancels the task. What it
-- awaits is not part of it: an awaitee is given by what its methods answer. The task's parent and the
-- executor are what is called on them: the outcomes stored with the parent, its continuations, and the
-- steps that the executor has been given and has not yet run.
pub mod Live
pub mod Outcome
pub mod Pending
mod Tests
use corral.Base.{ℕ, ◌+◌, ◌-◌, Bool, true, false, not, ◌&&◌, ◌==◌, ltb, List, [], ◌∷◌, if◌then◌else◌}

-- `await_cancel` returns true, returns false and goes on, or resumes the handle before it returns false.
pub data OnCancel : Type 0 where
  completes waits resumes : OnCancel

-- `await_suspend` goes on, resumes the handle at once, or throws.
pub data OnSuspend : Type 0 where
  suspends continues throws : OnSuspend

pub record Awaitee : Type 0 where
  pub await_ready : Bool
  pub await_early_cancel : Bool
  pub await_suspend : OnSuspend
  pub await_cancel : OnCancel
  pub await_must_resume : Bool

-- The union of `state_` and `awaiter_`.
pub data Activity : Type 0 where
  ready running : Activity
  awaiting : Awaitee → Activity

-- What `resumeFn` calls.
pub data Trampoline : Type 0 where
  do_resume do_resume_after_cancel do_nothing : Trampoline

-- `requested` is `cancelState_`, and false where the union holds an awaiter; `parent` says whether
-- `parent_` is set. `scheduled` counts the steps that the executor has still to run, `stored`,
-- `cancelled` and `continued` the calls on the parent; `broken` says that one was made on no parent.
pub record Promise : Type 0 where
  pub activity : Activity
  pub requested : Bool
  pub on_resume : Trampoline
  pub parent : Bool
  pub scheduled : ℕ
  pub stored : ℕ
  pub cancelled : ℕ
  pub continued : ℕ
  pub broken : Bool

-- A promise after `start`.
abbrev pub started : Promise
started = record {
  activity = ready;
  requested = false;
  on_resume = do_resume;
  parent = true;
  scheduled = 0;
  stored = 0;
  cancelled = 0;
  continued = 0;
  broken = false;
}

-- `propagateCancel`
abbrev pub propagate_cancel : Promise → Promise
propagate_cancel p =
    if p.parent
    then record p { parent = false; cancelled = p.cancelled + 1; continued = p.continued + 1 }
    else record p { broken = true }

-- `doResume`: the step is given to the executor, and a further resumption does nothing.
abbrev pub schedule : Promise → Promise
schedule p = record p { activity = ready; on_resume = do_nothing; scheduled = p.scheduled + 1 }

-- `doResumeAfterCancel`, with the activity.
abbrev pub resume_after_cancel : Activity → Promise → Promise
resume_after_cancel (awaiting a) p =
    if a.await_must_resume then schedule (record p { requested = true }) else propagate_cancel p
resume_after_cancel _ p = propagate_cancel p

-- `resumeFn`: the proxy handle is resumed.
unfoldable pub resume_by : Trampoline → Promise → Promise
resume_by do_resume p = schedule p
resume_by do_resume_after_cancel p = resume_after_cancel p.activity p
resume_by do_nothing p = p

abbrev pub resume : Promise → Promise
resume p = resume_by p.on_resume p

-- The answer of `await_cancel` to a task that has an awaiter.
abbrev pub forward_cancel : Awaitee → OnCancel → Promise → Promise
forward_cancel a completes p = propagate_cancel p
forward_cancel a waits p = p
forward_cancel a resumes p = resume_after_cancel (awaiting a) p

unfoldable pub cancel_from : Activity → Promise → Promise
cancel_from (awaiting a) p =
    forward_cancel a a.await_cancel (record p { on_resume = do_resume_after_cancel })
cancel_from _ p = record p { requested = true }

-- `cancel`
abbrev pub cancel : Promise → Promise
cancel p = cancel_from p.activity p

-- The step that `doResume` schedules, up to where the coroutine goes on.
abbrev pub run : Promise → Promise
run p = record p { activity = running; scheduled = p.scheduled - 1 }

-- The awaitee's `await_suspend` within `hookAwaitSuspend`, given whether a cancellation was requested.
abbrev pub suspend_by : OnSuspend → Bool → Promise → Promise
suspend_by suspends asked p = p
suspend_by continues asked p = resume_by p.on_resume p
suspend_by throws asked p = record p { activity = running; requested = asked }

-- `hookAwaitSuspend` of a task that has been asked to cancel.
abbrev pub hook_asked : Awaitee → Promise → Promise
hook_asked a p =
    if a.await_early_cancel
    then propagate_cancel p
    else let q = record p { on_resume = do_resume_after_cancel } in
      if a.await_ready then resume q else suspend_by a.await_suspend true q

-- `hookAwaitSuspend`
unfoldable pub hook_await_suspend : Awaitee → Promise → Promise
unfolding resume_by
hook_await_suspend a p =
    let q = record p { activity = awaiting a; requested = false } in
    if p.requested
    then hook_asked a q
    else suspend_by a.await_suspend false (record q { on_resume = do_resume })

-- `co_await`: `AwaitProxy::await_ready`, and `hookAwaitSuspend` unless it is ready.
unfoldable pub await : Awaitee → Promise → Promise
unfolding hook_await_suspend
await a p = if not p.requested && a.await_ready then p else hook_await_suspend a p

-- `hookFinalSuspend`
abbrev pub hook_final_suspend : Promise → Promise
hook_final_suspend p =
    if p.parent
    then record p { parent = false; continued = p.continued + 1 }
    else record p { broken = true }

-- The coroutine ends: `return_value`, `return_void` or `unhandled_exception`, and the final suspension.
unfoldable pub finish : Promise → Promise
finish p =
    hook_final_suspend
      (if p.parent then record p { stored = p.stored + 1 } else record p { broken = true })
