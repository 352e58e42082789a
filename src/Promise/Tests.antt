-- ===== src/Promise/Tests.antt =====
-- Runs of a task (corral/detail/Promise.h), and instances of the theorems about it.
use corral.Base.{◌≡◌, refl, true, false, List, [], ◌∷◌}
use corral.Promise.{
  waits, suspends, Awaitee, Promise, resume_by, cancel_from, hook_await_suspend, await, finish,
  started,
}
use corral.Promise.Live.{Inv}
use corral.Promise.Outcome.{
  Call, resumed, cancels, runs, finishes, awaits, allowed, step, all_allowed, happens,
  happens-started,
}
use corral.Promise.Pending.{all_quiet, await-asked}

-- An awaitee that suspends its task, and goes on after a cancellation but then yields nothing.
abbrev slow : Awaitee
slow = record {
  await_ready = false;
  await_early_cancel = false;
  await_suspend = suspends;
  await_cancel = waits;
  await_must_resume = false;
}

-- One that yields a value in spite of a cancellation.
abbrev stubborn : Awaitee
stubborn = record slow { await_must_resume = true }

abbrev skippable : Awaitee
skippable = record slow { await_early_cancel = true }

-- A task is resumed and run, awaits, is cancelled, is resumed by the awaitee, runs on, and is cancelled
-- at what it awaits next.
abbrev calls : List Call
calls =
    resumed ∷ runs ∷ awaits stubborn ∷ cancels ∷ resumed ∷ resumed ∷ runs ∷ awaits skippable ∷ []

ends_cancelled : (happens calls started).cancelled ≡ 1
unfolding happens step resume_by cancel_from await hook_await_suspend
ends_cancelled = refl

-- One that ends with a value although it was asked to cancel.
ends_stored : (happens (resumed ∷ cancels ∷ runs ∷ finishes ∷ []) started).stored ≡ 1
unfolding happens step resume_by cancel_from finish
ends_stored = refl

happens-started_example : Inv (happens calls started)
unfolding all_allowed allowed step resume_by cancel_from await hook_await_suspend
happens-started_example = happens-started calls refl

abbrev ran : Promise
ran = happens (resumed ∷ runs ∷ []) started

await-asked_test :
    let q = await skippable (happens (cancels ∷ cancels ∷ []) ran) in
    (q.parent ≡ false) × (q.cancelled ≡ 1) × (q.stored ≡ 0)
unfolding happens step resume_by cancel_from all_allowed all_quiet allowed
await-asked_test =
    await-asked (cancels ∷ []) skippable ran (happens-started (resumed ∷ runs ∷ []) refl) refl refl
      refl refl refl
