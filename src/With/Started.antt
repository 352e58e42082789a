-- ===== src/With/Started.antt =====
-- The start of the second stage of a guarded body (corral/detail/With.h).
use corral.Base.{
  ◌≡◌, if◌then◌else◌, refl, sym, ◌∙◌, ap, subst, Bool, true, false, not, ◌&&◌, ◌||◌, ◌==◌,
  Bool-cases, inl, inr, arith,
}
use corral.Promise.{OnSuspend, suspends, continues, throws}
use corral.With.{
  With, second_stage, exception, is_first, is_second, first, second, is_running, mark_cancelling,
  mark_done, mark_started_, switch_to, cancel_stage, on_stage_done, last_done, settle, resume_if,
  suspend_stage, begin_stage, cancelled_at_once, start_second, mark_started,
}
use corral.With.Cases.{
  if_true, if_false, Cancelling, busy, gone, at_once, pending, resumed_at_once,
  cancel_stage-Cancelling, Left, leave_stage-Left,
}
use corral.With.Inv.{counts, Kept, Waits}
use corral.With.Ends.{
  lives_waiting, lives_finished, first_ends, Left-Alone, Left-same_first, second_by,
}

-- The second stage ends, before it was suspended or after, while the first runs.
record Beside (m : With) : Type 0 where
  pub counted : counts m ≡ true
  pub unbroken : m.broken ≡ false
  pub begun : (not m.second_flags.started || (m.built == 1)) ≡ true
  pub no_result : m.has_second_result ≡ false
  pub unresumed : m.resumed ≡ 0
  pub runs : is_running first m ≡ true

Beside-ends : (m : With) → Beside m → Kept (on_stage_done second m)
unfolding on_stage_done
Beside-ends m w =
    let n : With = settle second m in
    let p : With = record m {
      second_flags = record m.second_flags {
        done = true;
        must_not_resume =
            m.second_flags.must_not_resume
            || (m.second_flags.cancelling && not m.second_awaiter.await_must_resume);
      };
    } in
    let left : Left p n = leave_stage-Left p in
    let e : n.first_flags.done ≡ false =
      ap (λ f. f.done) (Left-same_first p n left) ∙ ground (arith, w.runs) in
    subst Kept (sym (if_false _ _ e)) (
      second_by n (cancel_stage (last_done first) first n)
        (Left-Alone p n left (ground (arith, w.counted, w.no_result))
          (ground (arith, w.unbroken, w.begun)) (ground (arith, w.counted, w.no_result)) refl
          w.unresumed (ground (arith, w.runs)))
        (cancel_stage-Cancelling (last_done first) first n))

-- The second stage is there, and nothing has been done with it.
record Built (m : With) : Type 0 where
  pub beside : Beside m
  pub here : is_second m.stage ≡ true
  pub unstarted : m.second_flags.started ≡ false
  pub undone : m.second_flags.done ≡ false

suspend_by :
    (s : OnSuspend) (m : With) → Built m → Kept (suspend_stage second s (mark_started_ second m))
suspend_by suspends m b = record {
  counted = ground (arith, b.beside.counted);
  shaped = ground (arith, b.beside.counted, b.beside.unbroken, b.here);
  lives =
      lives_waiting (mark_started_ second m)
        (ground (arith, b.beside.unresumed, b.beside.runs, b.undone));
}
suspend_by continues m b = Beside-ends (mark_started_ second m) (record {
  counted = ground (arith, b.beside.counted);
  unbroken = b.beside.unbroken;
  begun = ground (arith, b.beside.counted, b.here);
  no_result = b.beside.no_result;
  unresumed = b.beside.unresumed;
  runs = ground (arith, b.beside.runs);
})
suspend_by throws m b = Beside-ends (switch_to exception (mark_started_ second m)) (record {
  counted = ground (arith, b.beside.counted, b.here, b.beside.no_result);
  unbroken = b.beside.unbroken;
  begun = ground (arith, b.beside.counted, b.here);
  no_result = b.beside.no_result;
  unresumed = b.beside.unresumed;
  runs = ground (arith, b.beside.runs);
})

built_begins :
    (m : With)
    → Built m
    → (m.cancel_requested && not m.second_flags.cancelling) ≡ false
    → Kept (begin_stage second m)
unfolding begin_stage
built_begins m b asked =
    subst Kept (sym (if_false _ _ b.undone ∙ if_false _ _ asked))
      (elim (Bool-cases m.second_awaiter.await_ready) [
        | inl r ↦ subst Kept (sym (if_true _ _ r)) (Beside-ends m b.beside)
        | inr r ↦ subst Kept (sym (if_false _ _ r)) (suspend_by m.second_awaiter.await_suspend m b)
      ])

-- The second stage could not be built: the first is cancelled.
failed_by :
    (n : With) (r : Bool × With)
    → Waits n
    → is_running first n ≡ true
    → is_running second n ≡ false
    → Cancelling (on_stage_done first) first n r
    → Kept (resume_if r)
failed_by n r w g h (busy c) = record {
  counted = w.counted;
  shaped = w.shaped;
  lives = lives_waiting n w.waits_;
}
failed_by n r w g h (gone c x) = absurd (ground (arith, g, x))
failed_by n r w g h (at_once c x) = record {
  counted = ground (arith, w.counted);
  shaped = ground (arith, w.shaped);
  lives = lives_finished (resume_if r) (ground (arith, w.waits_, h));
}
failed_by n r w g h (pending c x) = record {
  counted = ground (arith, w.counted);
  shaped = ground (arith, w.shaped);
  lives = lives_waiting (resume_if r) (ground (arith, w.waits_, g));
}
failed_by n r w g h (resumed_at_once c x t) =
    first_ends (mark_cancelling first n)
      (record {
        counted = ground (arith, w.counted);
        shaped = ground (arith, w.shaped);
        waits_ = ground (arith, w.waits_, g);
      })
      (ground (arith, g))

-- The second stage is built after a cancellation was requested: it is cancelled before it begins.
requested_by :
    (n : With) (r : Bool × With)
    → Built n
    → Cancelling (on_stage_done second) second n r
    → Kept (if r.0 then on_stage_done second r.1 else begin_stage second r.1)
requested_by n r b (busy c) = built_begins n b (ground (arith, c))
requested_by n r b (gone c x) = absurd (ground (arith, b.here, b.undone, x))
requested_by n r b (at_once c x) =
    Beside-ends (cancelled_at_once second (mark_cancelling second n)).1 (record {
      counted = ground (arith, b.beside.counted, b.beside.no_result);
      unbroken = b.beside.unbroken;
      begun = ground (arith, b.beside.begun);
      no_result = b.beside.no_result;
      unresumed = b.beside.unresumed;
      runs = ground (arith, b.beside.runs);
    })
requested_by n r b (pending c x) =
    built_begins (mark_cancelling second n)
      (record {
        beside = record {
          counted = ground (arith, b.beside.counted);
          unbroken = b.beside.unbroken;
          begun = ground (arith, b.beside.begun);
          no_result = b.beside.no_result;
          unresumed = b.beside.unresumed;
          runs = ground (arith, b.beside.runs);
        };
        here = b.here;
        unstarted = b.unstarted;
        undone = b.undone;
      })
      (ground arith)
requested_by n r b (resumed_at_once c x t) = absurd (ground (arith, b.unstarted, t))

built_starts : (n : With) → Built n → Kept (start_second true n)
built_starts n b =
    let r = cancel_stage (on_stage_done second) second n in
    elim (Bool-cases n.cancel_requested) [
      | inr a ↦
          subst Kept
            (sym (if_false _ _ (ap (λ x. x && r.0) a) ∙ ap (begin_stage second) (if_false r.1 n a)))
            (built_begins n b (ap (λ x. x && not n.second_flags.cancelling) a))
      | inl a ↦
          subst Kept
            (sym (
              ap
                (λ x.
                  if x && r.0
                  then on_stage_done second r.1
                  else begin_stage second (if x then r.1 else n))
                a))
            (requested_by n r b (cancel_stage-Cancelling (on_stage_done second) second n))
    ]

-- The first stage of a guarded body that waits says that it has started, and the second stage is built now,
-- or that fails, or the first is being cancelled, and it is not built. Then the parent is resumed, once, and nothing runs, or it is
-- not, and a stage runs that will resume it.
pub mark_started_lem :
    (m : With)
    → Waits m
    → is_running first m ≡ true
    → is_first m.stage ≡ true
    → m.built ≡ 0
    → m.second_flags.done ≡ false
    → Kept (mark_started m)
unfolding mark_started
mark_started_lem w v g f z d =
    let m : With = record w { broken = w.broken || w.first_flags.done } in
    let sound : m.broken ≡ false = ground (arith, v.shaped, g) in
    let unstarted : m.second_flags.started ≡ false = ground (arith, v.shaped, z) in
    elim (Bool-cases m.first_flags.cancelling) [
      | inl c ↦ subst Kept (sym (if_true _ _ c)) (record {
        counted = ground (arith, v.counted, d);
        shaped = ground (arith, v.shaped, sound);
        lives = lives_waiting (mark_done second m) (ground (arith, v.waits_, g, c));
      })
      | inr c ↦ elim (Bool-cases m.build_throws) [
        | inl b ↦
            let n : With = switch_to exception m in
            subst Kept (sym (if_false _ _ c ∙ if_true _ _ b)) (
              failed_by n (cancel_stage (on_stage_done first) first n)
                (record {
                  counted = ground (arith, v.counted, f, d);
                  shaped = ground (arith, unstarted, sound, z);
                  waits_ = ground (arith, v.waits_, g, unstarted, d);
                })
                g (ground (arith, unstarted))
                (cancel_stage-Cancelling (on_stage_done first) first n))
        | inr b ↦
            let n : With = switch_to second_stage m in
            subst Kept (sym (if_false _ _ c ∙ if_false _ _ b ∙ ap (λ x. start_second x n) f)) (
              built_starts n (record {
                beside = record {
                  counted = ground (arith, v.counted, f, d, z);
                  unbroken = sound;
                  begun = ground (arith, unstarted);
                  no_result = ground (arith, v.counted, d);
                  unresumed = ground (arith, v.waits_);
                  runs = g;
                };
                here = refl;
                unstarted = unstarted;
                undone = d;
              }))
      ]
    ]
