-- ===== src/Executor/Tests.antt =====
-- Executors (corral/Executor.h) on small inputs.
use corral.Base.{ℕ, zero, suc, ◌<◌, ◌≡◌, refl, true, false, none, some, List, [], ◌∷◌, arith}
use corral.Executor.{Executor, Thread, callback, run, loop, run_soon, capture, drain_by}
use corral.Executor.Capture.{Captured, capture_lem}
use corral.Executor.Finish.{calls_on, weights, in_order, body_of, Finished, run-Finished}

abbrev quiet : ℕ → Executor
quiet j = record { event_loop = 7; ready = []; running = false; scheduled = none }

abbrev fresh : Thread
fresh = record {
  executors = quiet;
  current = none;
  active = false;
  nested = false;
  ran = [];
  broken = false;
}

-- 1 schedules 2 and 3, and 2 schedules 4.
abbrev spawned : ℕ → List ℕ
spawned (suc zero) = 2 ∷ 3 ∷ []
spawned (suc (suc zero)) = 4 ∷ []
spawned zero = []
spawned (suc (suc (suc n))) = []

abbrev heavy : ℕ → ℕ
heavy (suc zero) = 4
heavy (suc (suc zero)) = 2
heavy zero = 1
heavy (suc (suc (suc n))) = 1

-- The same on two executors.
abbrev bounced : ℕ → List (ℕ × ℕ)
bounced (suc zero) = (5, 2) ∷ (0, 3) ∷ []
bounced (suc (suc zero)) = (0, 4) ∷ []
bounced zero = []
bounced (suc (suc (suc n))) = []

heavy-falls : (i : ℕ) → weights heavy (spawned i) < heavy i
unfolding weights
heavy-falls zero = omega arith
heavy-falls (suc zero) = omega arith
heavy-falls (suc (suc zero)) = omega arith
heavy-falls (suc (suc (suc n))) = omega arith

fifo : (run (body_of 0 spawned) 9 0 1 fresh).ran ≡ 1 ∷ 2 ∷ 3 ∷ 4 ∷ []
unfolding loop run_soon
fifo = refl

across : (run bounced 9 0 1 fresh).ran ≡ 1 ∷ 2 ∷ 3 ∷ 4 ∷ []
unfolding loop run_soon
across = refl

run-Finished_example :
    Finished 0 spawned (in_order spawned 4 (1 ∷ [])) fresh (run (body_of 0 spawned) 9 0 1 fresh)
run-Finished_example =
    run-Finished 0 spawned heavy heavy-falls 9 1 fresh
      (record { none_current = refl; nothing_ready = refl; stopped = refl; unscheduled = refl })
      (omega arith)

-- In the middle of a callback, with 3 ready, 1 and 2 are captured.
abbrev midway : Thread
midway = record fresh {
  executors =
      λ j. record { event_loop = 7; ready = callback 3 ∷ []; running = true; scheduled = none };
  current = some 0;
  active = true;
}

captured_first : (capture (body_of 0 spawned) 9 0 (calls_on 0 (1 ∷ 2 ∷ [])) midway).ran ≡ 1 ∷ 2 ∷ []
unfolding capture run_soon drain_by
captured_first = refl

capture_lem_test :
    Captured 0 spawned
      (1 ∷ 2 ∷ [])
      (3 ∷ [])
      midway
      (capture (body_of 0 spawned) 9 0 (calls_on 0 (1 ∷ 2 ∷ [])) midway)
    × ((capture (body_of 0 spawned) 9 0 (calls_on 0 (1 ∷ 2 ∷ [])) midway).current ≡ some 0)
capture_lem_test =
    capture_lem 0 spawned 9 (1 ∷ 2 ∷ []) (3 ∷ []) midway
      (record { lists = refl; runs = refl; alone = refl })
