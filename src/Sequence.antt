-- ===== src/Sequence.antt =====
-- corral/detail/Sequence.h: an awaitable followed by a second one that a function makes of the result
-- of the first. Both and the function are given by what they answer. The parent is the calls of
-- `parent_.resume()`; the second stage is what is built and destroyed.
pub mod Inv
pub mod Runs
mod Tests
use corral.Base.{ℕ, ◌+◌, Bool, true, false, not, ◌&&◌, ◌||◌, Option, none, some, if◌then◌else◌}
use corral.Promise.{OnCancel, completes, waits, resumes, OnSuspend, suspends, continues, throws}

pub data Stage : Type 0 where
  no_stage first_stage second_stage exception : Stage

abbrev pub is_first : Stage → Bool
is_first first_stage = true
is_first _ = false

abbrev pub is_second : Stage → Bool
is_second second_stage = true
is_second _ = false

abbrev pub is_exception : Stage → Bool
is_exception exception = true
is_exception _ = false

-- What `kickOffSecond` hears: from the first awaiter, whether its result must be taken; whether
-- everything up to the second awaiter is made without an exception, and a cancellation is requested
-- meanwhile; and from the second awaiter.
pub record Answers : Type 0 where
  pub first_must_resume : Bool
  pub made : Bool
  pub cancelled_meanwhile : Bool
  pub second_early_cancel : Bool
  pub second_ready : Bool
  pub second_suspend : OnSuspend

-- `cancelling` is the flag. `taken` counts the calls of the first awaiter's `await_resume`, `built` and
-- `destroyed` the second stages; `terminated` is an exception that leaves a noexcept function, `broken`
-- a failed assertion, `raised` an exception that reaches the parent from `await_suspend`, and
-- `abandoned` that the parent was told that its cancellation is complete.
pub record Sequence : Type 0 where
  pub stage : Stage
  pub cancelling : Bool
  pub resumed : ℕ
  pub taken : ℕ
  pub built : ℕ
  pub destroyed : ℕ
  pub terminated : Bool
  pub broken : Bool
  pub raised : Bool
  pub abandoned : Bool

abbrev pub made_new : Sequence
made_new = record {
  stage = no_stage;
  cancelling = false;
  resumed = 0;
  taken = 0;
  built = 0;
  destroyed = 0;
  terminated = false;
  broken = false;
  raised = false;
  abandoned = false;
}

-- `switchTo` leaves a stage.
abbrev pub leave : Sequence → Sequence
leave s = record s {
  stage = no_stage;
  destroyed = if is_second s.stage then s.destroyed + 1 else s.destroyed;
}

-- `switchTo`
abbrev pub switch_to : Stage → Sequence → Sequence
switch_to new s =
    let t = leave s in
    record t { stage = new; built = if is_second new then t.built + 1 else t.built }

abbrev pub resume_parent : Sequence → Sequence
resume_parent s = record s { resumed = s.resumed + 1 }

-- `SequenceBase::await_set_executor`
abbrev pub await_set_executor : Sequence → Sequence
await_set_executor s =
    if is_second s.stage
    then s
    else switch_to first_stage
        (record s { broken = s.broken || is_first s.stage || is_exception s.stage })

-- The second awaiter's `await_suspend`, in `kickOffSecond`, which is noexcept.
abbrev pub suspend_second : OnSuspend → Sequence → Sequence
suspend_second suspends s = s
suspend_second continues s = resume_parent s
suspend_second throws s = record s { terminated = true }

-- `kickOffSecond` from where the second stage exists.
unfoldable pub enter_second : Answers → Sequence → Sequence
enter_second a s =
    if s.cancelling && a.second_early_cancel
    then resume_parent (switch_to no_stage s)
    else if a.second_ready
    then resume_parent s
    else suspend_second a.second_suspend s

-- `kickOffSecond` from the switch to the second stage.
unfoldable pub build_second : Answers → Sequence → Sequence
unfolding enter_second
build_second a s =
    let t = record s {
      taken = s.taken + 1;
      cancelling = s.cancelling || a.cancelled_meanwhile;
      broken = s.broken || not (is_first s.stage);
    } in
    if a.made
    then enter_second a (switch_to second_stage t)
    else resume_parent (switch_to exception t)

-- `Sequence::kickOffSecond`
unfoldable pub kick_off_second : Answers → Sequence → Sequence
unfolding build_second
kick_off_second a s =
    if s.cancelling && not a.first_must_resume then resume_parent s else build_second a s

-- `Sequence::await_early_cancel`; the answer is the first awaiter's.
abbrev pub await_early_cancel : Sequence → Sequence
await_early_cancel s = record s { cancelling = true }

-- The first awaiter's `await_suspend`.
abbrev pub suspend_first : OnSuspend → Answers → Sequence → Sequence
suspend_first suspends a s = s
suspend_first continues a s = kick_off_second a s
suspend_first throws a s = record s { raised = true }

-- `Sequence::await_suspend`
unfoldable pub await_suspend : Bool → OnSuspend → Answers → Sequence → Sequence
unfolding kick_off_second
await_suspend ready o a s = if ready then kick_off_second a s else suspend_first o a s

-- `Sequence::await_cancel`, with the answer of the awaiter that it is passed on to.
abbrev pub cancel_first : OnCancel → Answers → Sequence → Sequence × Bool
cancel_first completes a s = (s, true)
cancel_first waits a s = (s, false)
cancel_first resumes a s = (kick_off_second a s, false)

abbrev pub cancel_second : OnCancel → Sequence → Sequence × Bool
cancel_second completes s = (s, true)
cancel_second waits s = (s, false)
cancel_second resumes s = (resume_parent s, false)

unfoldable pub cancel_by : Stage → OnCancel → Answers → Sequence → Sequence × Bool
unfolding kick_off_second
cancel_by first_stage o a s = cancel_first o a s
cancel_by second_stage o a s = cancel_second o s
cancel_by _ o a s = (s, false)

abbrev pub await_cancel : OnCancel → Answers → Sequence → Sequence × Bool
await_cancel o a s = cancel_by s.stage o a (record s { cancelling = true })

-- `Sequence::await_must_resume`, with the second awaiter's answer.
abbrev pub await_must_resume : Bool → Sequence → Sequence × Bool
await_must_resume must s =
    if is_exception s.stage || is_second s.stage && must
    then (s, true)
    else (if is_second s.stage then switch_to no_stage s else s, false)

-- `Sequence::await_resume`, and the destruction of the second stage.
abbrev pub await_resume : Sequence → Sequence
await_resume s =
    switch_to no_stage
      (record s { broken = s.broken || not (is_exception s.stage || is_second s.stage) })

-- What the parent does once it is resumed: asked to cancel, it takes a result only if it must.
unfoldable pub go_on : Bool → Sequence → Sequence
go_on must s =
    if s.cancelling
    then (let (t, taken) = await_must_resume must s in if taken then await_resume t else t)
    else await_resume s

-- The destructor.
abbrev pub destroy : Sequence → Sequence
destroy s = switch_to no_stage s
