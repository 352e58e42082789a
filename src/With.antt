-- ===== src/With.antt =====
-- corral/detail/With.h: a guarded body, whose first stage, the background, runs beside the second, the body,
-- which is built when the first says that it has started. Both awaiters are given by what their methods
-- answer. A handle that a function returns is resumed by whoever called the function.
-- A first stage that says within its `await_suspend` that it has started is as one that says so right after.
pub mod Cases
pub mod Cancel
pub mod Inv
pub mod Ends
pub mod Outside
pub mod Started
pub mod Runs
mod Tests
use corral.Base.{
  ℕ, ◌+◌, Bool, true, false, not, ◌&&◌, ◌||◌, Option, none, some, List, [], ◌∷◌, if◌then◌else◌,
}
use corral.Promise.{
  Awaitee, OnCancel, OnSuspend, suspends, continues, throws, completes, waits, resumes,
}

-- `SequenceBase::Stage`, as With uses it.
pub data Stage : Type 0 where
  no_stage first_stage second_stage exception : Stage

abbrev pub is_second : Stage → Bool
is_second second_stage = true
is_second _ = false

abbrev pub is_first : Stage → Bool
is_first first_stage = true
is_first _ = false

abbrev pub is_empty : Stage → Bool
is_empty no_stage = true
is_empty _ = false

abbrev pub is_exception : Stage → Bool
is_exception exception = true
is_exception _ = false

-- The flags of a stage.
pub record Flags : Type 0 where
  pub started : Bool
  pub cancelling : Bool
  pub done : Bool
  pub must_not_resume : Bool

pub data Part : Type 0 where
  first second : Part

-- `build_throws` and `result_throws` are about the second stage: its construction, and `await_resume` of its
-- awaiter. `resumed` counts how often the parent is resumed, `built` and `destroyed` the second stages, and
-- `taken` the results taken from them; `broken` is a failed assertion.
pub record With : Type 0 where
  pub first_awaiter : Awaitee
  pub second_awaiter : Awaitee
  pub build_throws : Bool
  pub result_throws : Bool
  pub stage : Stage
  pub first_flags : Flags
  pub second_flags : Flags
  pub cancel_requested : Bool
  pub has_second_result : Bool
  pub resumed : ℕ
  pub built : ℕ
  pub destroyed : ℕ
  pub taken : ℕ
  pub broken : Bool

abbrev pub no_flags : Flags
no_flags = record { started = false; cancelling = false; done = false; must_not_resume = false }

abbrev pub fresh : Awaitee → Awaitee → Bool → Bool → With
fresh a b t u = record {
  first_awaiter = a;
  second_awaiter = b;
  build_throws = t;
  result_throws = u;
  stage = no_stage;
  first_flags = no_flags;
  second_flags = no_flags;
  cancel_requested = false;
  has_second_result = false;
  resumed = 0;
  built = 0;
  destroyed = 0;
  taken = 0;
  broken = false;
}

-- What the functions need of a stage.
abbrev pub flags : Part → With → Flags
flags first m = m.first_flags
flags second m = m.second_flags

abbrev pub set_flags : Part → Flags → With → With
set_flags first f m = record m { first_flags = f }
set_flags second f m = record m { second_flags = f }

abbrev pub awaiter : Part → With → Awaitee
awaiter first m = m.first_awaiter
awaiter second m = m.second_awaiter

abbrev pub exists_ : Part → With → Bool
exists_ first m = true
exists_ second m = is_second m.stage

abbrev pub other : Part → Part
other first = second
other second = first

abbrev pub is_running : Part → With → Bool
is_running s m = let f = flags s m in f.started && not f.done

abbrev pub mark_started_ : Part → With → With
mark_started_ s m = let f = flags s m in set_flags s (record f { started = true }) m

abbrev pub mark_done : Part → With → With
mark_done s m = let f = flags s m in set_flags s (record f { done = true }) m

abbrev pub mark_cancelling : Part → With → With
mark_cancelling s m = let f = flags s m in set_flags s (record f { cancelling = true }) m

abbrev pub mark_must_not_resume : Part → With → With
mark_must_not_resume s m = let f = flags s m in set_flags s (record f { must_not_resume = true }) m

-- `switchTo`
abbrev pub switch_to : Stage → With → With
switch_to new m = record m {
  stage = new;
  destroyed = if is_second m.stage then m.destroyed + 1 else m.destroyed;
  built = if is_second new then m.built + 1 else m.built;
}

abbrev pub resume_parent : With → With
resume_parent m = record m { resumed = m.resumed + 1 }

-- `cancelStage`, given what becomes of a stage whose awaiter resumes its handle meanwhile.
abbrev pub cancelled_at_once : Part → With → Bool × With
cancelled_at_once s m = (true, mark_done s (mark_must_not_resume s m))

abbrev pub cancel_running : (With → With) → Part → OnCancel → With → Bool × With
cancel_running on_done s completes m = cancelled_at_once s m
cancel_running on_done s waits m = (false, m)
cancel_running on_done s resumes m = (false, on_done m)

unfoldable pub cancel_stage : (With → With) → Part → With → Bool × With
cancel_stage on_done s m =
    let f = flags s m in
    let a = awaiter s m in
    if f.cancelling
    then (false, m)
    else if not (exists_ s m) || f.done
    then (true, m)
    else if f.started
    then cancel_running on_done s a.await_cancel (mark_cancelling s m)
    else if a.await_early_cancel
    then cancelled_at_once s (mark_cancelling s m)
    else (false, mark_cancelling s m)

-- The second stage's result is stored, and the stage is destroyed.
abbrev pub store_result : With → With
store_result m =
    if is_second m.stage && not m.second_flags.must_not_resume
    then (if m.result_throws
        then switch_to exception m
        else record m { taken = m.taken + 1; has_second_result = true })
    else m

abbrev pub destroy_second : With → With
destroy_second m = if is_second m.stage then switch_to no_stage m else m

abbrev pub leave_stage : Part → With → With
leave_stage first m = m
leave_stage second m = destroy_second (store_result m)

-- The end of a stage, as far as it is about that stage.
abbrev pub settle : Part → With → With
settle s m =
    let f = flags s m in
    let a = awaiter s m in
    leave_stage s (
      set_flags s
        (record f {
          done = true;
          must_not_resume = f.must_not_resume || (f.cancelling && not a.await_must_resume);
        })
        m)

abbrev pub resume_if : Bool × With → With
resume_if (b, m) = if b then resume_parent m else m

-- `onStageDone`: at `last` the other stage is done, and within a cancellation of the other stage this one is.
abbrev pub last_done : Part → With → With
last_done s m =
    let n = settle s m in
    let f = flags (other s) n in if f.done then resume_parent n else record n { broken = true }

unfoldable pub on_stage_done : Part → With → With
unfolding cancel_stage
on_stage_done s m =
    let n = settle s m in
    let f = flags (other s) n in
    if f.done then resume_parent n else resume_if (cancel_stage (last_done (other s)) (other s) n)

-- `beginStage`, from the suspension.
abbrev pub suspend_stage : Part → OnSuspend → With → With
suspend_stage s suspends m = m
suspend_stage s continues m = on_stage_done s m
suspend_stage s throws m = on_stage_done s (switch_to exception m)

abbrev pub start_stage : Part → With → With
start_stage s m =
    let a = awaiter s m in
    if a.await_ready then on_stage_done s m else suspend_stage s a.await_suspend (mark_started_ s m)

unfoldable pub begin_stage : Part → With → With
unfolding on_stage_done
begin_stage s m =
    let f = flags s m in
    let a = awaiter s m in
    if f.done
    then m
    else if m.cancel_requested && not f.cancelling
    then (let n = mark_cancelling s m in
        if a.await_early_cancel
        then on_stage_done s (mark_must_not_resume s n)
        else start_stage s n)
    else start_stage s m

-- `await_suspend`
unfoldable pub await_suspend : With → With
unfolding begin_stage
await_suspend m =
    if is_second m.stage then begin_stage second (begin_stage first m) else begin_stage first m

-- `await_set_executor`
abbrev pub await_set_executor : With → With
await_set_executor m =
    if is_second m.stage
    then m
    else let n = switch_to first_stage m in record n { broken = n.broken || not (is_empty m.stage) }

-- `doCancel`, which is `await_cancel` and `await_early_cancel`.
abbrev pub cancel_rest : Bool × With → Bool × With
cancel_rest (b, m) = if b then cancel_stage (on_stage_done first) first m else (false, m)

abbrev pub unless_running : Bool × With → Bool × With
unless_running (b, m) = (b && not (is_running second m), m)

unfoldable pub do_cancel : With → Bool × With
unfolding cancel_stage on_stage_done
do_cancel w =
    let m = record w { cancel_requested = true } in
    if is_running second m
    then cancel_rest (cancel_stage (on_stage_done second) second m)
    else unless_running (cancel_stage (on_stage_done first) first m)

-- `markStarted`
abbrev pub start_second : Bool → With → With
start_second has_executor m =
    let (b, n) = cancel_stage (on_stage_done second) second m in
    if m.cancel_requested && b
    then on_stage_done second n
    else let o = if m.cancel_requested then n else m in
      if has_executor then begin_stage second o else o

unfoldable pub mark_started : With → With
unfolding cancel_stage on_stage_done begin_stage
mark_started w =
    let m : With = record w { broken = w.broken || w.first_flags.done } in
    if m.first_flags.cancelling
    then mark_done second m
    else if m.build_throws
    then resume_if (cancel_stage (on_stage_done first) first (switch_to exception m))
    else start_second (is_first m.stage) (switch_to second_stage m)

-- `await_ready` and `await_must_resume`; `none` is a failed assertion.
abbrev pub await_ready : With → Bool
await_ready m = m.first_flags.done && m.second_flags.done

abbrev pub await_must_resume : With → Option Bool
await_must_resume m =
    if is_second m.stage
    then none
    else some (is_exception m.stage || not m.first_flags.must_not_resume || m.has_second_result)

-- `await_resume`, given whether the first stage's result is an error; `none` is a failed assertion, or a
-- result that is not there.
pub data Outcome : Type 0 where
  rethrows first_error second_result : Outcome

abbrev pub await_resume : Bool → With → Option Outcome
await_resume has_error m =
    if is_exception m.stage
    then some rethrows
    else if not m.first_flags.must_not_resume
    then (if has_error then some first_error else none)
    else if m.has_second_result
    then some second_result
    else none

-- `~SequenceBase`
abbrev pub destroy : With → With
destroy m = switch_to no_stage m
