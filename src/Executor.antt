-- ===== src/Executor.antt =====
-- corral/Executor.h: the executors of a thread, each with its event loop and its list of ready tasks,
-- and the one that is current. What a callback does is an argument: the calls of `runSoon` that it
-- makes, in order. The list is that of corral/detail/Queue.h; Queue.Refine shows that it is first in,
-- first out.
pub mod Order
pub mod Finish
pub mod Capture
mod Tests
use corral.Base.{
  ℕ, zero, suc, Bool, true, false, not, ◌&&◌, ◌||◌, Option, none, some, List, [], ◌∷◌, ◌++◌,
  if◌then◌else◌, ◌==◌, update,
}

-- A ready task: a callback, or another executor's `runOnce`.
pub data Task : Type 0 where
  callback : ℕ → Task
  run_other : ℕ → Task

-- `running` says whether `running_` is set, `scheduled` which executor `scheduled_` points to.
pub record Executor : Type 0 where
  pub event_loop : ℕ
  pub ready : List Task
  pub running : Bool
  pub scheduled : Option ℕ

-- The executors by their address, and `current()`. `active` says whether a callback is in the middle of
-- running, `nested` that one was begun in the middle of another, and `ran` has the callbacks that were
-- begun, in order; `broken` says that the current executor did not run.
pub record Thread : Type 0 where
  pub executors : ℕ → Executor
  pub current : Option ℕ
  pub active : Bool
  pub nested : Bool
  pub ran : List ℕ
  pub broken : Bool

abbrev pub is_some : Option ℕ → Bool
is_some none = false
is_some (some e) = true

abbrev pub change : ℕ → (Executor → Executor) → Thread → Thread
change e f w = record w { executors = update w.executors e (f (w.executors e)) }

-- `schedule`
abbrev pub schedule : ℕ → Task → Thread → Thread
schedule e t w = change e (λ x. record x { ready = x.ready ++ t ∷ [] }) w

-- `runSoon` in the executor `c` that is current, for an `e` of the same event loop.
abbrev pub enlist : ℕ → ℕ → Thread → Thread
enlist c e w =
    let v = schedule c (run_other e) (change e (λ x. record x { scheduled = some c }) w) in
    if (v.executors c).running || is_some (v.executors c).scheduled
    then v
    else record v { broken = true }

-- `runSoon()`, given what `runOnce` does.
unfoldable pub run_soon : (ℕ → Thread → Thread) → ℕ → Thread → Thread
run_soon run_once e w =
    if (w.executors e).running || is_some (w.executors e).scheduled then w else elim w.current [
      | none ↦ run_once e w
      | some c ↦
          if (w.executors c).event_loop == (w.executors e).event_loop
          then enlist c e w
          else run_once e w
    ]

-- `runSoon(c)`, for each call that a callback makes.
unfoldable pub call_each : (ℕ → Thread → Thread) → List (ℕ × ℕ) → Thread → Thread
unfolding run_soon
call_each run_once [] w = w
call_each run_once ((e, i) ∷ cs) w =
    call_each run_once cs (run_soon run_once e (schedule e (callback i) w))

-- `drain`, given its loop. Only the outermost drain of an executor resets `running_`.
unfoldable pub drain_by : (ℕ → Thread → Thread) → ℕ → Thread → Thread
drain_by loop e w =
    let owner = not (w.executors e).running in
    let v = loop e (record (change e (λ x. record x { running = true }) w) { current = some e }) in
    record (change e (λ x. record x { running = if owner then false else x.running }) v) {
      current = w.current;
    }

-- `runOnce`
unfoldable pub run_once_by : (ℕ → Thread → Thread) → ℕ → Thread → Thread
unfolding drain_by
run_once_by loop e w =
    let v = change e (λ x. record x { scheduled = none }) w in
    if not (w.executors e).running then drain_by loop e v else v

module _ (body : ℕ → List (ℕ × ℕ)) where
  -- A task runs.
  unfoldable pub perform : (ℕ → Thread → Thread) → Task → Thread → Thread
  unfolding call_each run_once_by
  perform loop (callback i) w =
      let v =
        call_each (run_once_by loop) (body i)
          (record w { active = true; nested = w.nested || w.active; ran = w.ran ++ i ∷ [] }) in
      record v { active = w.active }
  perform loop (run_other e) w = run_once_by loop e w

  -- One round of the loop of `drain`, by the list of ready tasks, given the rounds after it.
  unfoldable pub round : (ℕ → Thread → Thread) → ℕ → List Task → Thread → Thread
  unfolding perform
  round rounds e [] w = w
  round rounds e (t ∷ ts) w =
      if (w.executors e).running
      then rounds e (perform rounds t (change e (λ x. record x { ready = ts }) w))
      else w

  -- The loop, for as many rounds as there is fuel.
  unfoldable pub loop : ℕ → ℕ → Thread → Thread
  unfolding round
  loop zero e w = w
  loop (suc fuel) e w = round (loop fuel) e (w.executors e).ready w

  -- `drain()` and `runSoon(c)` from outside of any callback.
  abbrev pub drain : ℕ → ℕ → Thread → Thread
  drain fuel e w = drain_by (loop fuel) e w

  abbrev pub run : ℕ → ℕ → ℕ → Thread → Thread
  run fuel e i w = run_soon (run_once_by (loop fuel)) e (schedule e (callback i) w)

  -- `drain` of a list that nothing is added to.
  unfoldable pub drain_list : (ℕ → Thread → Thread) → List Task → Thread → Thread
  unfolding perform
  drain_list rounds [] w = w
  drain_list rounds (t ∷ ts) w = drain_list rounds ts (perform rounds t w)

  -- `capture()` of a function that makes these calls of `runSoon`. While it runs, `ready` is the list
  -- that captures, and what the captured tasks schedule goes to the list from before.
  unfoldable pub capture : ℕ → ℕ → List (ℕ × ℕ) → Thread → Thread
  unfolding drain_list
  capture fuel e calls w =
      let v =
        call_each (run_once_by (loop fuel)) calls (change e (λ x. record x { ready = [] }) w) in
      drain_by (λ k. drain_list (loop fuel) (v.executors e).ready) e
        (change e (λ x. record x { ready = (w.executors e).ready }) v)
