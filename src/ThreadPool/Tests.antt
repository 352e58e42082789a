-- ===== src/ThreadPool/Tests.antt =====
-- Runs of a thread pool (corral/ThreadPool.h), and instances of the theorems about it.
use corral.Base.{◌*◌, ◌≤◌, ◌<◌, ◌≡◌, ◌≢◌, refl, true, false, List, [], ◌∷◌, ◌++◌, arith}
use corral.ThreadPool.{
  capacity, running, draining, Pool, new, submit, drain_step, Event, submits, claims, pops,
  completes, posts, ticks, drains, run,
}
use corral.ThreadPool.Runs.{run-new}
use corral.ThreadPool.Places.{Inv}
use corral.ThreadPool.Slots.{slot, slots_distinct}
use corral.ThreadPool.Late.{TickLeft, late_tick}
use corral.ThreadPool.Token
use corral.ThreadPool.Token.{
  requested, confirmed, tests, peeks, cancels, accesses, takes_note, uncancelled, test, peek,
  await_must_resume, token_lem,
}

-- Two workers run two tasks, and complete them in the other order.
abbrev two_tasks : List Event
two_tasks =
    submits 11
    ∷ submits 12
    ∷ claims 0
    ∷ claims 1
    ∷ pops 1
    ∷ pops 0
    ∷ completes 1
    ∷ completes 0
    ∷ posts 1
    ∷ ticks
    ∷ drains
    ∷ drains
    ∷ drains
    ∷ drains
    ∷ []

in_completion_order : (run two_tasks (new 2)).resumed ≡ 12 ∷ 11 ∷ []
unfolding run capacity submit drain_step
in_completion_order = refl

run-new_example : Inv (run two_tasks (new 2))
run-new_example = run-new 2 two_tasks (omega arith) (omega arith)

slots_distinct_example :
    (512 * 3 ≤ capacity 3)
    × (slot (capacity 3) 2047 < capacity 3)
    × (slot (capacity 3) 0 ≢ slot (capacity 3) 2047)
unfolding capacity
slots_distinct_example =
    slots_distinct 3 0 2047 (omega arith) (omega arith) (omega arith) (omega arith)

token_lem_test :
    let s = accesses ((tests ∷ peeks ∷ []) ++ cancels ∷ peeks ∷ []) Token.none in
    (await_must_resume s ≡ true)
    × ((test (accesses (tests ∷ peeks ∷ []) Token.none)).1 ≡ false)
    × ((test s).1 ≡ true)
    × (peek s ≡ true)
    × (await_must_resume (test s).0 ≡ false)
unfolding takes_note uncancelled
token_lem_test = token_lem (tests ∷ peeks ∷ []) (peeks ∷ []) refl refl

abbrev between : Pool
between = record (new 2) { workers = λ w. running 12; phase = draining []; resumed = 11 ∷ [] }

late_tick_test : TickLeft 1 12 between
late_tick_test = late_tick between 1 12 (omega arith) refl refl refl
