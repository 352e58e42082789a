-- ===== src/Nursery/Tests.antt =====
-- Runs of a nursery (corral/Nursery.h), and instances of the theorems about it.
use corral.Base.{ℕ, ◌≡◌, refl, Bool, none, some, List, [], ◌∷◌, ◌==◌, has, remove}
use corral.Nursery.{
  Nursery, opened, join, enter, adopt, continuation, cancel_each, do_cancel, store_error, run_next,
}
use corral.Nursery.Steps.{Inv}
use corral.Nursery.Runs.{
  Call, starts, ends, ends_body, starts_pending, ends_pending, hands_off, runs, cancels_all,
  Abandoned, allowed, step, all_allowed, runs_to, runs_to-enter, runs_to-stuck,
}
use corral.Nursery.Destroyed.{occurs, adopted, adopted_by, runs_to-destroyed}

abbrev only_three : ℕ → Bool
only_three p = p == 3

-- The body 1 starts 2 and 3 and ends; a fourth task is handed off; then 2 fails, which ends 3 at once;
-- 4 ends, and the executor runs all that it was given.
abbrev calls : List Call
calls =
    starts only_three (some 2) none
    ∷ starts only_three (some 3) none
    ∷ starts_pending
    ∷ ends_body only_three 1 join
    ∷ hands_off 4
    ∷ ends only_three 2 (some 70)
    ∷ ends only_three 4 (some 71)
    ∷ runs
    ∷ runs
    ∷ runs
    ∷ runs
    ∷ runs
    ∷ []

abbrev entered : Nursery
entered = enter only_three (some 1) join opened

-- The first error is the one that is kept.
keeps_first : (runs_to calls entered).error ≡ some 70
unfolding runs_to step adopt continuation store_error do_cancel cancel_each remove run_next
keeps_first = refl

destroys_in_order : (runs_to calls entered).destroyed ≡ 1 ∷ 3 ∷ 2 ∷ 4 ∷ []
unfolding runs_to step adopt continuation store_error do_cancel cancel_each remove run_next
destroys_in_order = refl

runs_to-enter_example : Inv (runs_to calls entered)
unfolding all_allowed allowed step adopt continuation store_error do_cancel cancel_each has remove
    run_next
runs_to-enter_example = runs_to-enter only_three (some 1) join calls refl

-- The body 5 has started a task outside, and ended, and was destroyed.
abbrev bereft : Nursery
bereft =
    runs_to (starts_pending ∷ ends_body only_three 5 join ∷ runs ∷ [])
      (enter only_three (some 5) join opened)

bereft-Inv : Inv bereft
unfolding all_allowed allowed runs_to step adopt continuation store_error do_cancel cancel_each has
    remove run_next
bereft-Inv =
    runs_to-enter only_three (some 5) join
      (starts_pending ∷ ends_body only_three 5 join ∷ runs ∷ []) refl

runs_to-stuck_example :
    Abandoned (runs_to (ends_pending ∷ cancels_all only_three ∷ runs ∷ []) bereft)
    × ((runs_to (ends_pending ∷ cancels_all only_three ∷ runs ∷ []) bereft).resumed ≡ 0)
unfolding all_allowed allowed runs_to step adopt continuation store_error do_cancel cancel_each has
    remove run_next
runs_to-stuck_example =
    runs_to-stuck bereft (cancels_all only_three ∷ runs ∷ []) bereft-Inv refl refl refl refl refl

runs_to-destroyed_example : occurs 3 (runs_to calls entered).destroyed ≡ 1
unfolding all_allowed allowed runs_to step adopt continuation store_error do_cancel cancel_each has
    remove run_next adopted adopted_by
runs_to-destroyed_example = runs_to-destroyed 3 only_three (some 1) join calls refl refl
