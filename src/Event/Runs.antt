-- ===== src/Event/Runs.antt =====
-- Any sequence of calls on an event (corral/Event.h).
use corral.Base.{
  ℕ, ◌≡◌, refl, true, List, [], ◌∷◌, has, has-append, has-append_right, remove-nil, arith,
}
use corral.ParkingLot.{unlink, do_suspend}
use corral.ParkingLot.Laws.{unpark_all_lem}
use corral.Event.{Event, fresh, trigger, await, await_suspend, await_cancel}

pub data Call : Type 0 where
  triggers : Call
  awaits : ℕ → Call
  cancels : ℕ → Call

unfoldable pub step : Call → Event → Event
step triggers e = trigger e
step (awaits i) e = await i e
step (cancels i) e = await_cancel i e

unfoldable pub run : List Call → Event → Event
unfolding step
run [] e = e
run (c ∷ cs) e = run cs (step c e)

-- Once the event has happened nobody waits.
pub record Inv (e : Event) : Type 0 where
  pub released : e.triggered ≡ true → e.parked ≡ []

step-Inv : (c : Call) {e : Event} → Inv e → Inv (step c e)
unfolding step trigger await await_cancel unlink
step-Inv triggers v = record { released = λ h. refl }
step-Inv (awaits i) {e} v = record { released = λ h. ground (arith, v.released) }
step-Inv (cancels i) {e} v = record { released = λ h. ground (arith, v.released h, remove-nil i) }

run-Inv : (cs : List Call) {e : Event} → Inv e → Inv (run cs e)
unfolding run
run-Inv [] v = v
run-Inv (c ∷ cs) v = run-Inv cs (step-Inv c v)

-- After any calls on a new event, if it has been triggered then nobody is left waiting.
run-fresh_released : (cs : List Call) → (run cs fresh).triggered ≡ true → (run cs fresh).parked ≡ []
run-fresh_released cs h = (run-Inv cs (record { released = λ e. refl })).released h

step-triggered : (c : Call) (e : Event) → e.triggered ≡ true → (step c e).triggered ≡ true
unfolding step trigger await await_cancel
step-triggered triggers e h = refl
step-triggered (awaits i) e h = ground arith
step-triggered (cancels i) e h = h

-- An event that has happened stays so, whatever is called.
pub run-triggered : (cs : List Call) (e : Event) → e.triggered ≡ true → (run cs e).triggered ≡ true
unfolding run
run-triggered [] e h = h
run-triggered (c ∷ cs) e h = run-triggered cs (step c e) (step-triggered c e h)

step-resumed :
    (i : ℕ) (c : Call) (e : Event) → has i e.resumed ≡ true → has i (step c e).resumed ≡ true
unfolding step trigger await await_suspend await_cancel do_suspend unlink
step-resumed i triggers e h = rw (unpark_all_lem e.lot).1 (has-append i e.resumed e.parked h)
step-resumed i (awaits j) e h = ground arith
step-resumed i (cancels j) e h = h

-- Whoever waits when the event is triggered is resumed, and whoever has been resumed stays so, whatever
-- is called after.
pub trigger-resumes :
    (i : ℕ) (cs : List Call) (e : Event)
    → has i e.parked ≡ true
    → has i (run (triggers ∷ cs) e).resumed ≡ true
unfolding run step trigger
trigger-resumes i cs e h = keep cs (trigger e) waked
  where
    waked : has i (trigger e).resumed ≡ true
    waked = rw (unpark_all_lem e.lot).1 (has-append_right i e.resumed e.parked h)

    keep : (ds : List Call) (d : Event) → has i d.resumed ≡ true → has i (run ds d).resumed ≡ true
    keep [] d k = k
    keep (c ∷ ds) d k = keep ds (step c d) (step-resumed i c d k)
