-- ===== src/Event/Tests.antt =====
-- Instances of the theorems about corral/Event.h.
use corral.Base.{◌≡◌, refl, true, List, [], ◌∷◌}
use corral.Event.{fresh, trigger}
use corral.Event.Runs.{Call, triggers, awaits, cancels, run, run-triggered}

abbrev calls : List Call
calls = awaits 1 ∷ awaits 2 ∷ cancels 1 ∷ triggers ∷ awaits 3 ∷ []

still_triggered : (run calls (trigger fresh)).triggered ≡ true
unfolding trigger
still_triggered = run-triggered calls (trigger fresh) refl
