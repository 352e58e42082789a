-- ===== src/Checker/Tests.antt =====
-- Instances of the theorems about the checker (corral/detail/utility.h).
use corral.Base.{◌≡◌, refl, true, false, List, [], ◌∷◌, none, some}
use corral.Checker.{
  initial, done, Checker, fresh, Call, asks_ready, cancels_early, asks_must_resume, cancel_returns,
  suspends, cancels, sets_executor, resumes, takes, is_final, run, noncancellable,
}
use corral.Checker.Documented.{state_of, documented_run, all_described, run-documented}
use corral.Checker.Adapters.{forwarded, run-noncancellable}

-- An awaiter that is cancelled while it runs and has a result all the same.
abbrev cancelled_late : List Call
cancelled_late =
    asks_ready false
    ∷ suspends 7
    ∷ cancels 7
    ∷ resumes
    ∷ cancel_returns false
    ∷ asks_must_resume true
    ∷ takes
    ∷ []

abbrev ready_to_go : Checker
ready_to_go = record fresh { has_executor = true }

run-documented_example :
    state_of (run cancelled_late ready_to_go) ≡ documented_run cancelled_late initial
unfolding all_described
run-documented_example = run-documented cancelled_late ready_to_go refl refl

accepted : state_of (run cancelled_late ready_to_go) ≡ some done
unfolding run
accepted = refl

-- The adapter is cancelled early and again while it runs; the awaiter runs to its end.
abbrev with_executor : List Call
with_executor =
    cancels_early false
    ∷ asks_ready false
    ∷ sets_executor
    ∷ suspends 7
    ∷ resumes
    ∷ asks_must_resume true
    ∷ takes
    ∷ []

run-noncancellable_example :
    (j : Checker) × (run (forwarded noncancellable with_executor) fresh ≡ some j)
    × (is_final done ≡ true → is_final j.state ≡ true)
unfolding run
run-noncancellable_example =
    run-noncancellable with_executor (record { state = done; has_executor = true; real_handle = 7 })
      refl refl

-- A second suspension, and a destruction while the awaiter runs, are rejected.
twice : run (asks_ready false ∷ sets_executor ∷ suspends 7 ∷ suspends 7 ∷ []) fresh ≡ none
unfolding run
twice = refl
