-- ===== src/With/Outside.antt =====
-- The cancellation of a guarded body by its parent (corral/detail/With.h).
use corral.Base.{
  ◌≡◌, refl, sym, ap, subst, Bool, true, false, not, ◌||◌, Bool-cases, inl, inr, arith,
}
use corral.With.{
  With, first, second, is_running, mark_cancelling, cancelled_at_once, cancel_stage, on_stage_done,
  do_cancel, cancel_rest, unless_running,
}
use corral.With.Cases.{
  if_true, if_false, Cancelling, busy, gone, at_once, pending, resumed_at_once,
  cancel_stage-Cancelling,
}
use corral.With.Inv.{counts, Kept, Waits}
use corral.With.Ends.{Alone, first_ends, second_ends, lives_waiting}

-- The answer true: both stages have ended, and the parent was not resumed. The answer false: the parent was
-- resumed, or waits.
pub data Answered : Bool × With → Type 0 where
  over :
      {n : With}
      → counts n ≡ true
      → (is_running first n || is_running second n) ≡ false
      → n.first_flags.done ≡ true
      → n.resumed ≡ 0
      → Answered (true, n)
  going_on : {n : With} → Kept n → Answered (false, n)

Waits-Kept : (m : With) → Waits m → Kept m
Waits-Kept m w = record { counted = w.counted; shaped = w.shaped; lives = lives_waiting m w.waits_ }

-- The second stage has ended: the first is cancelled too.
rest_by :
    (n : With) (r : Bool × With) → Alone n → Cancelling (on_stage_done first) first n r → Answered r
rest_by n r v (busy c) = going_on (
    Waits-Kept n (record {
      counted = v.counted;
      shaped = v.shaped;
      waits_ = ground (arith, v.second_done, v.unresumed, v.runs, c);
    }))
rest_by n r v (gone c x) = absurd (ground (arith, v.runs, x))
rest_by n r v (at_once c x) =
    over (ground (arith, v.counted)) (ground (arith, v.second_done)) refl v.unresumed
rest_by n r v (pending c x) = going_on (
    Waits-Kept (mark_cancelling first n) (record {
      counted = ground (arith, v.counted);
      shaped = ground (arith, v.shaped);
      waits_ = ground (arith, v.second_done, v.unresumed, v.runs);
    }))
rest_by n r v (resumed_at_once c x t) = going_on (
    first_ends (mark_cancelling first n)
      (record {
        counted = ground (arith, v.counted);
        shaped = ground (arith, v.shaped);
        waits_ = ground (arith, v.second_done, v.unresumed, v.runs);
      })
      (ground (arith, v.runs)))

-- The second stage runs, and is cancelled.
second_cancelled :
    (m : With) (r : Bool × With)
    → Waits m
    → is_running second m ≡ true
    → Cancelling (on_stage_done second) second m r
    → Answered (cancel_rest r)
second_cancelled m r w g (busy c) = going_on (Waits-Kept m w)
second_cancelled m r w g (gone c x) = absurd (ground (arith, w.shaped, g, x))
second_cancelled m r w g (at_once c x) =
    let n : With = (cancelled_at_once second (mark_cancelling second m)).1 in
    rest_by n (cancel_stage (on_stage_done first) first n)
      (record {
        counted = ground (arith, w.counted, g);
        shaped = ground (arith, w.shaped);
        second_done = refl;
        unresumed = ground (arith, w.waits_);
        runs = ground (arith, w.waits_, c);
      })
      (cancel_stage-Cancelling (on_stage_done first) first n)
second_cancelled m r w g (pending c x) = going_on (
    Waits-Kept (mark_cancelling second m) (record {
      counted = ground (arith, w.counted);
      shaped = ground (arith, w.shaped);
      waits_ = ground (arith, w.waits_, g);
    }))
second_cancelled m r w g (resumed_at_once c x t) = going_on (
    second_ends (mark_cancelling second m)
      (record {
        counted = ground (arith, w.counted);
        shaped = ground (arith, w.shaped);
        waits_ = ground (arith, w.waits_, g);
      })
      (ground (arith, g)))

-- The second stage does not run, and the first is cancelled.
first_cancelled :
    (m : With) (r : Bool × With)
    → Waits m
    → is_running second m ≡ false
    → Cancelling (on_stage_done first) first m r
    → Answered (unless_running r)
first_cancelled m r w g (busy c) = going_on (Waits-Kept m w)
first_cancelled m r w g (gone c x) = absurd (ground (arith, w.waits_, g, x))
first_cancelled m r w g (at_once c x) =
    subst Answered
      (ap (λ b. (not b, (cancelled_at_once first (mark_cancelling first m)).1)) (sym g))
      (over (ground (arith, w.counted)) (ground (arith, g)) refl (ground (arith, w.waits_)))
first_cancelled m r w g (pending c x) = going_on (
    Waits-Kept (mark_cancelling first m) (record {
      counted = ground (arith, w.counted);
      shaped = ground (arith, w.shaped);
      waits_ = ground (arith, w.waits_, g);
    }))
first_cancelled m r w g (resumed_at_once c x t) = going_on (
    first_ends (mark_cancelling first m)
      (record {
        counted = ground (arith, w.counted);
        shaped = ground (arith, w.shaped);
        waits_ = ground (arith, w.waits_, g);
      })
      (ground (arith, w.waits_, g)))

-- A parent cancels a guarded body that waits. If the answer is true, both stages have ended and the parent
-- was not resumed. If it is false, the parent was resumed, once, and nothing runs, or it was not, and a
-- stage runs that will resume it.
pub do_cancel_lem : (m : With) → Waits m → Answered (do_cancel m)
unfolding do_cancel
do_cancel_lem w v =
    let m : With = record w { cancel_requested = true } in
    let u : Waits m = record { counted = v.counted; shaped = v.shaped; waits_ = v.waits_ } in
    elim (Bool-cases (is_running second w)) [
      | inl g ↦ subst Answered (sym (if_true _ _ g)) (
          second_cancelled m (cancel_stage (on_stage_done second) second m) u g
            (cancel_stage-Cancelling (on_stage_done second) second m))
      | inr g ↦ subst Answered (sym (if_false _ _ g)) (
          first_cancelled m (cancel_stage (on_stage_done first) first m) u g
            (cancel_stage-Cancelling (on_stage_done first) first m))
    ]
