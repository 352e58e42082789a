-- ===== src/CbPortal/Tests.antt =====
-- Tests of portals, and an instance of the theorem about their runs (corral/CBPortal.h).
use corral.Base.{ℕ, ◌≡◌, refl, true, false, List, [], ◌∷◌, some}
use corral.CbPortal.{Portal, proxy, Event, calls, cancels, initiated, and_then, run, await_proxy}
use corral.CbPortal.Inv.{Inv}
use corral.CbPortal.Runs.{all_allowed, portal-Inv}

-- The initiate function calls the callback; the task takes the value and awaits the portal again; a
-- second call serves it again, and then it is cancelled.
abbrev initially : List (Event ℕ)
initially = calls 7 true ∷ []

abbrev afterwards : List (Event ℕ)
afterwards = calls 8 true ∷ cancels false ∷ []

portal-Inv_example :
    (p : Portal ℕ) × (and_then (await_proxy false initially true (proxy true true)) (run afterwards)
      ≡ some p)
    × Inv p
unfolding all_allowed await_proxy
portal-Inv_example = portal-Inv true true false true initially afterwards refl refl

in_order :
    and_then (await_proxy false initially true (proxy true true)) (run afterwards)
    ≡ some (record (proxy {A = ℕ} true true) {
      asked = true;
      called = 7 ∷ 8 ∷ [];
      delivered = 7 ∷ 8 ∷ [];
      confirmed = 1;
    })
unfolding run await_proxy
in_order = refl

-- Cancelled before it awaits, with a portal of its own, the task does not suspend; with the user's, it
-- is resumed when the initiate function has run.
skipped :
    await_proxy true [] false (proxy {A = ℕ} false true)
    ≡ some (record (proxy {A = ℕ} false true) { asked = true })
unfolding await_proxy
skipped = refl

resumed_after :
    await_proxy true [] false (proxy {A = ℕ} true true)
    ≡ some (record (proxy {A = ℕ} true true) {
      proxied = true;
      asked = true;
      status = initiated;
      confirmed = 1;
      cancel_calls = 1;
    })
unfolding await_proxy
resumed_after = refl
