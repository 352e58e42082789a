-- ===== src/With/Tests.antt =====
-- Guarded bodies on small inputs, and witnesses (corral/detail/With.h).
use corral.Base.{◌≡◌, refl, true, false, none}
use corral.Promise.{Awaitee, suspends, waits, completes}
use corral.With.{
  With, Flags, first_stage, second_stage, no_flags, fresh, first, on_stage_done, await_set_executor,
  await_suspend, mark_started, begin_stage, do_cancel, await_must_resume,
}
use corral.With.Inv.{Kept, Waits}
use corral.With.Runs.{Prepared, suspended, begun, Reached-Kept}
use corral.With.Outside.{Answered, do_cancel_lem}
use corral.With.Cancel.{do_cancel-unswitched}

-- A background that ends some time after it is cancelled, and a body that can be cancelled at once.
abbrev background : Awaitee
background = record {
  await_ready = false;
  await_early_cancel = false;
  await_suspend = suspends;
  await_cancel = waits;
  await_must_resume = false;
}

abbrev sleeper : Awaitee
sleeper = record background { await_early_cancel = true; await_cancel = completes }

abbrev runs : Flags
runs = record no_flags { started = true }

abbrev both : With
both = record (fresh background sleeper false false) {
  stage = second_stage;
  first_flags = runs;
  second_flags = runs;
  built = 1;
}

started_second :
    mark_started (await_suspend (await_set_executor (fresh background sleeper false false))) ≡ both
unfolding mark_started await_suspend
started_second = refl

both-Waits : Waits both
both-Waits = record { counted = refl; shaped = refl; waits_ = refl }

-- Before the suspension.
abbrev ready_to_go : With
ready_to_go = record (fresh background sleeper false false) { stage = first_stage }

ready_to_go-Prepared : Prepared ready_to_go
ready_to_go-Prepared = record {
  counted = refl;
  unbroken = refl;
  idle_ = refl;
  first_only = refl;
  undone = refl;
  uncancelled = refl;
  told = refl;
}

Reached-Kept_example : Kept (mark_started (await_suspend ready_to_go))
unfolding await_suspend begin_stage
Reached-Kept_example =
    Reached-Kept (mark_started (await_suspend ready_to_go))
      (begun (await_suspend ready_to_go) (suspended ready_to_go ready_to_go-Prepared) refl)

do_cancel_lem_example : Answered (do_cancel both)
do_cancel_lem_example = do_cancel_lem both both-Waits

do_cancel-unswitched_example :
    let (b, n) = do_cancel both in
    let u = on_stage_done first n in
    (b ≡ false) × (u.resumed ≡ 1) × (u.destroyed ≡ 0) × (await_must_resume u ≡ none)
do_cancel-unswitched_example = do_cancel-unswitched both refl refl refl
