-- ===== src/With/Cancel.antt =====
-- A guarded body that is cancelled while both stages run (corral/detail/With.h).
use corral.Base.{◌+◌, ◌≡◌, Bool, true, false, not, ◌&&◌, none, arith}
use corral.Promise.{completes, waits}
use corral.With.{
  With, is_second, is_running, first, second, do_cancel, on_stage_done, cancel_stage,
  await_must_resume,
}

-- Both stages run, and nothing was cancelled.
abbrev pub both_run : With → Bool
both_run m =
    is_second m.stage
    && is_running first m
    && is_running second m
    && not m.first_flags.cancelling
    && not m.second_flags.cancelling
    && not m.second_flags.must_not_resume
    && not m.first_flags.must_not_resume

module _ (m : With) (run : both_run m ≡ true) where
  -- If the second stage cancels at once and the first does not, it is not destroyed when it ends, and when
  -- the first has ended, await_must_resume fails its assertion.
  pub do_cancel-unswitched :
      m.second_awaiter.await_cancel ≡ completes
      → m.first_awaiter.await_cancel ≡ waits
      → let (b, n) = do_cancel m in
        let u = on_stage_done first n in
        (b ≡ false)
        × (u.resumed ≡ m.resumed + 1)
        × (u.destroyed ≡ m.destroyed)
        × (await_must_resume u ≡ none)
  unfolding do_cancel on_stage_done cancel_stage
  do_cancel-unswitched c d = (
    ground (arith, run, c, d),
    ground (arith, run, c, d),
    ground (arith, run, c, d),
    ground (arith, run, c, d),
  )
