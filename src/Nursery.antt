-- ===== src/Nursery.antt =====
-- corral/Nursery.h: a nursery, from the opening of its scope to the resumption of the task that
-- opened it. A task is a number, the address of its promise. The executor is what it has been given and
-- has not yet run. A call that cancels takes as an argument which tasks end as soon as they are
-- cancelled; the others are told and go on.
pub mod Cancel
pub mod Inv
pub mod Steps
pub mod Runs
pub mod Destroyed
mod Tests
use corral.Base.{
  ℕ, ◌+◌, ◌-◌, Bool, true, false, not, ◌&&◌, ◌||◌, Option, none, some, List, [], ◌∷◌, ◌++◌,
  if◌then◌else◌, ◌==◌, has, remove,
}

-- What the executor is given: the destruction of a promise, and the resumption of the parent.
pub data Job : Type 0 where
  destroy : ℕ → Job
  resume_parent : Job

-- `executor` and `parent` say whether the pointers are set. `told` has the tasks that were cancelled, in
-- order, `destroyed` the promises that were, `resumed` counts the parent's resumptions. `broken` says
-- that an assertion failed or no executor was there to be given a job, `terminated` that an error met no
-- parent.
pub record Nursery : Type 0 where
  pub executor : Bool
  pub cancelling : Bool
  pub tasks : List ℕ
  pub task_count : ℕ
  pub pending_task_count : ℕ
  pub parent : Bool
  pub error : Option ℕ
  pub jobs : List Job
  pub told : List ℕ
  pub destroyed : List ℕ
  pub resumed : ℕ
  pub broken : Bool
  pub terminated : Bool

-- `Scope` once it has an executor and its parent.
abbrev pub opened : Nursery
opened = record {
  executor = true;
  cancelling = false;
  tasks = [];
  task_count = 0;
  pending_task_count = 0;
  parent = true;
  error = none;
  jobs = [];
  told = [];
  destroyed = [];
  resumed = 0;
  broken = false;
  terminated = false;
}

abbrev pub is_empty : List ℕ → Bool
is_empty [] = true
is_empty (p ∷ ps) = false

-- `tasks_.erase`, and the count.
abbrev pub forget : Option ℕ → Nursery → Nursery
forget none n = n
forget (some p) n = record n { tasks = remove p n.tasks; task_count = n.task_count - 1 }

-- `executor->runSoon`, on the executor that was there when `continuation` began.
abbrev pub run_soon : Bool → Job → Nursery → Nursery
run_soon there j n =
    if there then record n { jobs = n.jobs ++ j ∷ [] } else record n { broken = true }

abbrev pub destroy_soon : Bool → Option ℕ → Nursery → Nursery
destroy_soon there none n = n
destroy_soon there (some p) n = run_soon there (destroy p) n

-- `NurseryBase::continuation`
unfoldable pub continuation : Option ℕ → Nursery → Nursery
continuation promise n =
    let m = forget promise n in
    if is_empty m.tasks && m.pending_task_count == 0 && m.parent
    then run_soon n.executor resume_parent
        (destroy_soon n.executor promise (record m { parent = false; executor = false }))
    else destroy_soon n.executor promise m

-- `cancel` of each of the tasks that were there when `doCancel` began.
unfoldable pub cancel_each : (ℕ → Bool) → List ℕ → Nursery → Nursery
unfolding continuation
cancel_each quick [] n = n
cancel_each quick (p ∷ ps) n =
    let m = record n { told = n.told ++ p ∷ [] } in
    cancel_each quick ps (if quick p then continuation (some p) m else m)

-- `NurseryBase::doCancel`
unfoldable pub do_cancel : (ℕ → Bool) → Nursery → Nursery
unfolding cancel_each
do_cancel quick n = if not n.executor || is_empty n.tasks then n else cancel_each quick n.tasks n

-- `NurseryBase::cancel`
unfoldable pub cancel : (ℕ → Bool) → Nursery → Nursery
unfolding do_cancel
cancel quick n = if n.cancelling then n else do_cancel quick (record n { cancelling = true })

-- `NurseryBase::adopt`
unfoldable pub adopt : ℕ → Nursery → Nursery
adopt p n =
    let m = if n.cancelling then record n { told = n.told ++ p ∷ [] } else n in
    if n.executor
    then record m { tasks = m.tasks ++ p ∷ []; task_count = m.task_count + 1 }
    else record n { broken = true }

-- `BasicNursery::storeError`
unfoldable pub store_error : (ℕ → Bool) → ℕ → Nursery → Nursery
unfolding do_cancel
store_error quick e n =
    if not n.parent
    then record n { terminated = true }
    else let m = record n {
      error = elim n.error [ none ↦ some e | some f ↦ some f ];
      cancelling = true;
    } in
      if not n.cancelling then do_cancel quick m else m

-- `BasicNursery::storeValue`, of a value that may carry an error, and `storeException`.
abbrev pub store_value : (ℕ → Bool) → Option ℕ → Nursery → Nursery
store_value quick none n = n
store_value quick (some e) n = store_error quick e n

-- A task of the nursery ends.
abbrev pub end : (ℕ → Bool) → ℕ → Option ℕ → Nursery → Nursery
end quick p value n = continuation (some p) (store_value quick value n)

-- `start`: a task that has ended already leaves its value, another is adopted.
abbrev pub start : (ℕ → Bool) → Option ℕ → Option ℕ → Nursery → Nursery
start quick none value n = store_value quick value n
start quick (some p) value n = adopt p n

-- What the body of a scope returns.
pub data Retval : Type 0 where
  join cancels : Retval
  fails : ℕ → Retval

-- `Scope::storeValue` and `Scope::storeException`
abbrev pub store_retval : (ℕ → Bool) → Retval → Nursery → Nursery
store_retval quick join n = n
store_retval quick cancels n = cancel quick n
store_retval quick (fails e) n = store_error quick e n

-- `Scope::await_suspend`: the body is a task, or has returned or thrown at once.
abbrev pub enter : (ℕ → Bool) → Option ℕ → Retval → Nursery → Nursery
enter quick none r n = continuation none (store_retval quick r n)
enter quick (some p) r n = adopt p n

-- The body ends.
abbrev pub end_body : (ℕ → Bool) → ℕ → Retval → Nursery → Nursery
end_body quick p r n = continuation (some p) (store_retval quick r n)

-- `NurseryStartAwaiter`: its task is started outside of the nursery, then handed off to it, or ends
-- before that.
abbrev pub start_pending : Nursery → Nursery
start_pending n = record n { pending_task_count = n.pending_task_count + 1 }

abbrev pub hand_off : ℕ → Nursery → Nursery
hand_off p n = adopt p (record n { pending_task_count = n.pending_task_count - 1 })

abbrev pub end_pending : Nursery → Nursery
end_pending n = record n { pending_task_count = n.pending_task_count - 1 }

abbrev pub run_job : Job → Nursery → Nursery
run_job (destroy p) n = record n { destroyed = n.destroyed ++ p ∷ [] }
run_job resume_parent n = record n { resumed = n.resumed + 1 }

-- The executor's next step.
unfoldable pub run_next : Nursery → Nursery
run_next n = elim n.jobs [ [] ↦ n | j ∷ js ↦ run_job j (record n { jobs = js }) ]
