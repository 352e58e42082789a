-- ===== src/Shared/Tests.antt =====
-- Runs of a shared operation (corral/Shared.h), and instances of the theorems about it.
use corral.Base.{
  ℕ, ◌≡◌, ◌==◌, refl, Bool, true, false, not, ◌||◌, List, [], ◌∷◌, ◌++◌, some, ltb, update, has,
  remove, if◌then◌else◌,
}
use corral.Promise.{completes, waits}
use corral.Shared.{
  incomplete, value, cancelled, suspends, returned, returns, State, fresh, is_incomplete, construct,
  await_early_cancel, drop_each, invoke, start, suspend, suspend_unless_ready, cancel, await_cancel,
  await_resume, await_must_resume,
}
use corral.Shared.Invoke.{invoke-serves}
use corral.Shared.Runs.{
  Call, awaits, cancels, completed, takes, step, run, all_allowed, run-Inv_shared,
}
use corral.Shared.Inv.{Inv, all_attached, fresh-Inv}
use corral.Shared.Cancel.{await_cancel_lem}
use corral.Shared.Results.{run-settled}
use corral.Shared.Early.{early_cancel-unstarted, invoke-restarts}

-- The resumption of parent 1 cancels parent 2, as in anyOf of two copies.
abbrev any_of : ℕ → List ℕ
any_of i = if i == 1 then 2 ∷ [] else []

abbrev joined : List (Call ℕ)
joined =
    awaits 1 false suspends true ∷ awaits 2 false suspends true ∷ awaits 3 false suspends true ∷ []

abbrev together : List (Call ℕ)
together = joined ++ cancels 3 waits true ∷ completed true ∷ takes 1 false (returned 42) ∷ []

-- Parents 1 and 2 wait.
abbrev waiting : State ℕ
waiting = record fresh { parents = 1 ∷ 2 ∷ []; caller = 1; attached = λ i. ltb i 4; starts = 1 }

waiting-Inv : Inv waiting
unfolding has all_attached
waiting-Inv = record {
  unique = (refl, (refl, tt));
  quiet = refl;
  oldest = refl;
  unfinished = refl;
  alone = refl;
  linked = refl;
}

-- The operation has returned 42, and nobody waits.
abbrev done : State ℕ
done = record fresh { result = value 42; attached = λ i. ltb i 4; starts = 1; woken = 1 ∷ 2 ∷ [] }

done-Inv : Inv done
unfolding all_attached
done-Inv = record {
  unique = tt;
  quiet = refl;
  oldest = refl;
  unfinished = refl;
  alone = refl;
  linked = refl;
}

-- Parent 1 is woken, which cancels parent 2.
wakes_one : (invoke any_of true waiting).woken ≡ 1 ∷ []
unfolding invoke drop_each remove
wakes_one = refl

-- The last parent's cancellation reaches the operation, which has a value all the same.
last_cancelled :
    (cancel any_of 1 completes true (record waiting { parents = 1 ∷ [] }))
    ≡ some (
      record waiting {
        result = cancelled;
        parents = [];
        cancels = 1;
        attached = update waiting.attached 1 false;
      },
      true,
    )
unfolding cancel remove
last_cancelled = refl

run-Inv_shared_example : (t : State ℕ) × (run any_of together fresh ≡ some t) × Inv t
unfolding all_allowed step has start suspend cancel drop_each await_resume remove
run-Inv_shared_example = run-Inv_shared any_of together fresh refl fresh-Inv

await_cancel_lem_example :
    (t : State ℕ) × (now : Bool) × (await_cancel any_of 1 waits true waiting ≡ some (t, now))
    × ((now ≡ true)
        × (t.cancels ≡ 0)
        × (t.starts ≡ 1)
        × (t.result ≡ incomplete)
        × (t.parents ≡ 2 ∷ []))
unfolding has remove
await_cancel_lem_example = await_cancel_lem any_of 1 waits true waiting refl waiting-Inv

run-settled_example :
    (done.result ≡ value 42)
    × ◌≡◌ {A = ℕ} 1 1
    × ◌≡◌ {A = ℕ} 0 0
    × (await_resume 2 false (returned 7) done ≡ (done, returns 42))
unfolding run all_allowed await_resume
run-settled_example =
    run-settled any_of (takes 1 false (returned 7) ∷ []) done done 2 false (returned 7) refl
      done-Inv refl refl refl

early_cancel-unstarted_example :
    let s : State ℕ = construct 1 fresh in
    let q = await_early_cancel 1 false s in
    (q.1 ≡ false)
    × (q.0.starts ≡ 0)
    × (suspend_unless_ready any_of 1 false suspends true q.0 ≡ q.0)
    × (await_must_resume 1 true q.0 ≡ true)
    × ((await_resume 1 false (returned 42) q.0).1 ≡ returns 42)
early_cancel-unstarted_example =
    early_cancel-unstarted any_of 1 false true false suspends (returned 42) (construct 1 fresh) refl
      refl refl

invoke-serves_test :
    let t = invoke any_of true waiting in
    ((has 2 t.woken || not (t.attached 2)) ≡ true)
    × (t.parents ≡ [])
    × (t.starts ≡ 1)
    × (t.cancels ≡ 0)
    × (t.result ≡ incomplete)
unfolding has
invoke-serves_test = invoke-serves any_of true waiting 2 refl

invoke-restarts_example :
    let t = invoke any_of true waiting in
    let u = suspend_unless_ready any_of 3 false suspends true (construct 3 t) in
    (u.starts ≡ 2) × (u.parents ≡ 3 ∷ []) × (u.woken ≡ t.woken) × (is_incomplete u.result ≡ true)
invoke-restarts_example = invoke-restarts any_of 3 true true waiting refl
