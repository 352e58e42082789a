-- ===== src/With/Runs.antt =====
-- The life of a guarded body from its suspension on (corral/detail/With.h).
use corral.Base.{
  ◌≡◌, refl, sym, ◌∙◌, ap, subst, Bool, true, false, not, ◌&&◌, ◌||◌, ◌==◌, Bool-cases, inl, inr,
  arith,
}
use corral.Promise.{OnSuspend, suspends, continues, throws}
use corral.With.{
  With, exception, is_first, is_second, Part, first, second, is_running, mark_started_, switch_to,
  cancel_stage, on_stage_done, last_done, settle, suspend_stage, begin_stage, await_suspend,
  mark_started, do_cancel,
}
use corral.With.Cases.{if_true, if_false, cancel_stage-Cancelling}
use corral.With.Inv.{counts, idle, waiting, finished, lively, Kept, Waits}
use corral.With.Ends.{Halved, first_by, lives_waiting, stage_ends_lem}
use corral.With.Outside.{Answered, over, going_on, do_cancel_lem}
use corral.With.Started.{mark_started_lem}

Halved-ends : (m : With) → Halved (settle first m) → Kept (on_stage_done first m)
unfolding on_stage_done
Halved-ends m v =
    let n : With = settle first m in
    subst Kept (sym (if_false _ _ v.second_runs)) (
      first_by n (cancel_stage (last_done second) second n) v
        (cancel_stage-Cancelling (last_done second) second n))

-- A guarded body that has its executor, and whose second stage does not exist yet. If its cancellation was
-- requested early, so was that of the first stage.
pub record Prepared (m : With) : Type 0 where
  pub counted : counts m ≡ true
  pub unbroken : m.broken ≡ false
  pub idle_ : idle m ≡ true
  pub first_only : is_second m.stage ≡ false
  pub undone : m.second_flags.done ≡ false
  pub uncancelled : m.second_flags.cancelling ≡ false
  pub told : (m.cancel_requested && not m.first_flags.cancelling) ≡ false

suspend_by :
    (s : OnSuspend) (m : With) → Prepared m → Kept (suspend_stage first s (mark_started_ first m))
suspend_by suspends m v = record {
  counted = ground (arith, v.counted);
  shaped = ground (arith, v.unbroken, v.idle_);
  lives =
      lives_waiting (mark_started_ first m)
        (ground (arith, v.idle_, v.first_only, v.undone, v.uncancelled));
}
suspend_by continues m v = Halved-ends (mark_started_ first m) (record {
  counted = ground (arith, v.counted);
  shaped = ground (arith, v.unbroken, v.idle_);
  first_done = refl;
  unresumed = ground (arith, v.idle_);
  second_runs = v.undone;
  begun = ground (arith, v.first_only);
  quiet = λ c. absurd (ground (arith, c, v.uncancelled));
})
suspend_by throws m v = Halved-ends (switch_to exception (mark_started_ first m)) (record {
  counted = ground (arith, v.counted, v.first_only, v.undone);
  shaped = ground (arith, v.unbroken, v.idle_);
  first_done = refl;
  unresumed = ground (arith, v.idle_);
  second_runs = v.undone;
  begun = refl;
  quiet = λ c. absurd (ground (arith, c, v.uncancelled));
})

await_suspend_lem : (m : With) → Prepared m → Kept (await_suspend m)
unfolding await_suspend begin_stage
await_suspend_lem m v =
    let undone : m.first_flags.done ≡ false = ground (arith, v.idle_) in
    subst Kept (sym (if_false _ _ v.first_only ∙ if_false _ _ undone ∙ if_false _ _ v.told))
      (elim (Bool-cases m.first_awaiter.await_ready) [
        | inl r ↦ subst Kept (sym (if_true _ _ r)) (
            Halved-ends m (record {
              counted = ground (arith, v.counted);
              shaped = ground (arith, v.unbroken, v.idle_);
              first_done = refl;
              unresumed = ground (arith, v.idle_);
              second_runs = v.undone;
              begun = ground (arith, v.first_only);
              quiet = λ c. absurd (ground (arith, c, v.uncancelled));
            }))
        | inr r ↦ subst Kept (sym (if_false _ _ r)) (suspend_by m.first_awaiter.await_suspend m v)
      ])

-- The first stage may say once that it has started, while it runs.
abbrev pub may_start : With → Bool
may_start m = is_running first m && is_first m.stage && (m.built == 0) && not m.second_flags.done

-- What may become of a guarded body that is suspended.
pub data Reached : With → Type 0 where
  suspended : (m : With) → Prepared m → Reached (await_suspend m)
  ended : (s : Part) (m : With) → Reached m → is_running s m ≡ true → Reached (on_stage_done s m)
  begun : (m : With) → Reached m → may_start m ≡ true → Reached (mark_started m)
  cancelled : (m n : With) → Reached m → m.resumed ≡ 0 → do_cancel m ≡ (false, n) → Reached n

Kept-Waits : (m : With) → Kept m → waiting m ≡ true → Waits m
Kept-Waits m v w = record { counted = v.counted; shaped = v.shaped; waits_ = w }

unfinished : (m : With) → lively m ≡ true → finished m ≡ false → waiting m ≡ true
unfinished m h f = elim (Bool-cases (waiting m)) [
  | inl e ↦ e
  | inr e ↦
      let none_ : lively m ≡ false = ap (λ b. b || finished m) e ∙ f in
      absurd (let c : false ≡ true = sym none_ ∙ h in ground (arith, c))
]

not_finished : (s : Part) (m : With) → is_running s m ≡ true → finished m ≡ false
not_finished first m g = ground (arith, g)
not_finished second m g = ground (arith, g)

running-waiting : (s : Part) (m : With) → lively m ≡ true → is_running s m ≡ true → waiting m ≡ true
running-waiting s m h g = unfinished m h (not_finished s m g)

unresumed-waiting : (m : With) → lively m ≡ true → m.resumed ≡ 0 → waiting m ≡ true
unresumed-waiting m h z = unfinished m h (let f : finished m ≡ false = ground (arith, z) in f)

Answered-Kept : (r : Bool × With) → Answered r → r.0 ≡ false → Kept r.1
Answered-Kept r (over a b c d) e = absurd (ground (arith, e))
Answered-Kept r (going_on v) e = v

ended-Kept : (s : Part) (m : With) → Kept m → is_running s m ≡ true → Kept (on_stage_done s m)
ended-Kept s m v g = stage_ends_lem s m (Kept-Waits m v (running-waiting s m v.lives g)) g

begun-Kept : (m : With) → Kept m → may_start m ≡ true → Kept (mark_started m)
begun-Kept m v g =
    let run : is_running first m ≡ true = ground (arith, g) in
    mark_started_lem m (Kept-Waits m v (running-waiting first m v.lives run)) run
      (ground (arith, g)) (ground (arith, g)) (ground (arith, g))

cancelled-Kept : (m n : With) → Kept m → m.resumed ≡ 0 → do_cancel m ≡ (false, n) → Kept n
cancelled-Kept m n v z e = subst Kept (ap (λ x. x.1) e) (
    Answered-Kept (do_cancel m) (do_cancel_lem m (Kept-Waits m v (unresumed-waiting m v.lives z)))
      (ap (λ x. x.0) e))

-- However the stages of a guarded body that is suspended before its second stage is built answer, and in
-- whatever order they end, the first says that it has started, and the parent cancels: the parent is resumed at most once; when it is resumed, nothing
-- runs any more; until then a stage runs, and one that is left alone has been cancelled. The second stage is
-- destroyed at most once, and has a result only if it ended with one. The first stage says so at most once,
-- while it runs, and after the suspension; the parent cancels before it is resumed, and a cancellation that
-- is complete at once ends the run.
pub Reached-Kept : (m : With) → Reached m → Kept m
Reached-Kept m (suspended w v) = await_suspend_lem w v
Reached-Kept m (ended s w r g) = ended-Kept s w (Reached-Kept w r) g
Reached-Kept m (begun w r g) = begun-Kept w (Reached-Kept w r) g
Reached-Kept m (cancelled w n r z e) = cancelled-Kept w n (Reached-Kept w r) z e
