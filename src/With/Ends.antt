-- ===== src/With/Ends.antt =====
-- The end of a stage of a guarded body (corral/detail/With.h).
use corral.Base.{
  ◌≡◌, refl, sym, ◌∙◌, ap, subst, Bool, true, false, not, ◌&&◌, ◌||◌, Bool-cases, inl, inr, arith,
}
use corral.With.{
  With, is_second, Part, first, second, is_running, mark_cancelling, cancel_stage, settle,
  last_done, on_stage_done, resume_if, resume_parent,
}
use corral.With.Cases.{
  if_true, if_false, Cancelling, busy, gone, at_once, pending, resumed_at_once,
  cancel_stage-Cancelling, Left, absent, raised, stored, dropped, leave_stage-Left,
}
use corral.With.Inv.{counts, shape, waiting, finished, lively, Kept, Waits}

pub lives_waiting : (n : With) → waiting n ≡ true → lively n ≡ true
lives_waiting n h = rw h refl

pub lives_finished : (n : With) → finished n ≡ true → lively n ≡ true
lives_finished n h = elim (Bool-cases (waiting n)) [ inl e ↦ rw e refl | inr e ↦ rw (e, h) refl ]

-- The second stage ends when the first has ended.
last_lem :
    (p n : With)
    → Left p n
    → counts p ≡ true
    → shape p ≡ true
    → p.has_second_result ≡ false
    → p.second_flags.done ≡ true
    → p.first_flags.done ≡ true
    → p.resumed ≡ 0
    → Kept (resume_parent n)
last_lem p n (absent e) a b r d f z = record {
  counted = ground (arith, a, e);
  shaped = ground (arith, b, e, d);
  lives = lives_finished (resume_parent n) (ground (arith, e, d, f, z));
}
last_lem p n (raised e m) a b r d f z = record {
  counted = ground (arith, a, e, r);
  shaped = ground (arith, b, e, d);
  lives = lives_finished (resume_parent n) (ground (arith, e, d, f, z));
}
last_lem p n (stored e m) a b r d f z = record {
  counted = ground (arith, a, e, r, d, m);
  shaped = ground (arith, b, e, d);
  lives = lives_finished (resume_parent n) (ground (arith, e, d, f, z));
}
last_lem p n (dropped e m) a b r d f z = record {
  counted = ground (arith, a, e, r);
  shaped = ground (arith, b, e, d);
  lives = lives_finished (resume_parent n) (ground (arith, e, d, f, z));
}

pub Left-same_first : (p n : With) → Left p n → n.first_flags ≡ p.first_flags
Left-same_first p n (absent e) = refl
Left-same_first p n (raised e m) = refl
Left-same_first p n (stored e m) = refl
Left-same_first p n (dropped e m) = refl

-- After the first stage has ended, while the second has not.
pub record Halved (n : With) : Type 0 where
  pub counted : counts n ≡ true
  pub shaped : shape n ≡ true
  pub first_done : n.first_flags.done ≡ true
  pub unresumed : n.resumed ≡ 0
  pub second_runs : n.second_flags.done ≡ false
  pub begun : (not (is_second n.stage) || n.second_flags.started) ≡ true
  pub quiet : n.second_flags.cancelling ≡ true → is_running second n ≡ true

pub first_by :
    (n : With) (r : Bool × With)
    → Halved n
    → Cancelling (last_done second) second n r
    → Kept (resume_if r)
first_by n r v (busy c) =
    let runs = v.quiet c in
    record {
      counted = v.counted;
      shaped = v.shaped;
      lives =
          lives_waiting n
            (ground (arith, v.first_done, v.unresumed, v.second_runs, v.begun, c, runs));
    }
first_by n r v (gone c x) = record {
  counted = ground (arith, v.counted);
  shaped = ground (arith, v.shaped);
  lives =
      lives_finished (resume_if r)
        (ground (arith, v.first_done, v.unresumed, v.shaped, v.second_runs, x));
}
first_by n r v (at_once c x) = record {
  counted = ground (arith, v.counted, v.second_runs);
  shaped = ground (arith, v.shaped);
  lives = lives_finished (resume_if r) (ground (arith, v.first_done, v.unresumed));
}
first_by n r v (pending c x) = record {
  counted = ground (arith, v.counted, v.second_runs);
  shaped = ground (arith, v.shaped);
  lives =
      lives_waiting (resume_if r)
        (ground (arith, v.first_done, v.unresumed, v.second_runs, v.begun, x));
}
first_by n r v (resumed_at_once c x t) =
    let q : With = mark_cancelling second n in
    let p : With = record q {
      second_flags = record q.second_flags {
        done = true;
        must_not_resume = q.second_flags.must_not_resume || not q.second_awaiter.await_must_resume;
      };
    } in
    let left = leave_stage-Left p in
    subst Kept
      (sym
        (if_true _ _ (ap (λ f. f.done) (Left-same_first p (settle second q) left) ∙ v.first_done)))
      (last_lem p (settle second q) left (ground (arith, v.counted, v.second_runs))
        (ground (arith, v.shaped)) (ground (arith, v.counted, v.second_runs)) refl v.first_done
        v.unresumed)

-- After the second stage has ended, and been left, while the first runs.
pub record Alone (n : With) : Type 0 where
  pub counted : counts n ≡ true
  pub shaped : shape n ≡ true
  pub second_done : n.second_flags.done ≡ true
  pub unresumed : n.resumed ≡ 0
  pub runs : is_running first n ≡ true

pub second_by :
    (n : With) (r : Bool × With)
    → Alone n
    → Cancelling (last_done first) first n r
    → Kept (resume_if r)
second_by n r v (busy c) = record {
  counted = v.counted;
  shaped = v.shaped;
  lives = lives_waiting n (ground (arith, v.second_done, v.unresumed, v.runs, c));
}
second_by n r v (gone c x) = absurd (ground (arith, v.runs, x))
second_by n r v (at_once c x) = record {
  counted = ground (arith, v.counted);
  shaped = ground (arith, v.shaped);
  lives = lives_finished (resume_if r) (ground (arith, v.second_done, v.unresumed, v.runs));
}
second_by n r v (pending c x) = record {
  counted = ground (arith, v.counted);
  shaped = ground (arith, v.shaped);
  lives = lives_waiting (resume_if r) (ground (arith, v.second_done, v.unresumed, v.runs));
}
second_by n r v (resumed_at_once c x t) = subst Kept (sym (if_true _ _ v.second_done)) (record {
  counted = ground (arith, v.counted);
  shaped = ground (arith, v.shaped);
  lives =
      lives_finished (resume_parent (settle first (mark_cancelling first n)))
        (ground (arith, v.second_done, v.unresumed));
})

pub Left-Alone :
    (p n : With)
    → Left p n
    → counts p ≡ true
    → shape p ≡ true
    → p.has_second_result ≡ false
    → p.second_flags.done ≡ true
    → p.resumed ≡ 0
    → is_running first p ≡ true
    → Alone n
Left-Alone p n (absent e) a b r d z g = record {
  counted = ground (arith, a, e, r, d);
  shaped = ground (arith, b, e, d);
  second_done = d;
  unresumed = z;
  runs = g;
}
Left-Alone p n (raised e m) a b r d z g = record {
  counted = ground (arith, a, e, r, d, m);
  shaped = ground (arith, b, e, d);
  second_done = d;
  unresumed = z;
  runs = g;
}
Left-Alone p n (stored e m) a b r d z g = record {
  counted = ground (arith, a, e, r, d, m);
  shaped = ground (arith, b, e, d);
  second_done = d;
  unresumed = z;
  runs = g;
}
Left-Alone p n (dropped e m) a b r d z g = record {
  counted = ground (arith, a, e, r, d, m);
  shaped = ground (arith, b, e, d);
  second_done = d;
  unresumed = z;
  runs = g;
}

pub first_ends : (m : With) → Waits m → is_running first m ≡ true → Kept (on_stage_done first m)
unfolding on_stage_done
first_ends m w g =
    let n : With = settle first m in
    elim (Bool-cases m.second_flags.done) [
      | inl e ↦ subst Kept (sym (if_true _ _ e)) (record {
        counted = ground (arith, w.counted);
        shaped = ground (arith, w.shaped);
        lives = lives_finished (resume_parent n) (ground (arith, w.waits_, e));
      })
      | inr e ↦ subst Kept (sym (if_false _ _ e)) (
          first_by n (cancel_stage (last_done second) second n)
            (record {
              counted = ground (arith, w.counted);
              shaped = ground (arith, w.shaped);
              first_done = refl;
              unresumed = ground (arith, w.waits_);
              second_runs = e;
              begun = ground (arith, w.waits_, e);
              quiet = λ c. ground (arith, w.waits_, c, e);
            })
            (cancel_stage-Cancelling (last_done second) second n))
    ]

pub second_ends : (m : With) → Waits m → is_running second m ≡ true → Kept (on_stage_done second m)
unfolding on_stage_done
second_ends m w g =
    let n : With = settle second m in
    let p : With = record m {
      second_flags = record m.second_flags {
        done = true;
        must_not_resume =
            m.second_flags.must_not_resume
            || (m.second_flags.cancelling && not m.second_awaiter.await_must_resume);
      };
    } in
    let left : Left p n = leave_stage-Left p in
    let same = ap (λ f. f.done) (Left-same_first p n left) in
    let a : counts p ≡ true = ground (arith, w.counted, g) in
    let b : shape p ≡ true = ground (arith, w.shaped) in
    let r : p.has_second_result ≡ false = ground (arith, w.counted, g) in
    let z : p.resumed ≡ 0 = ground (arith, w.waits_) in
    elim (Bool-cases m.first_flags.done) [
      | inl e ↦ subst Kept (sym (if_true _ _ (same ∙ e))) (last_lem p n left a b r refl e z)
      | inr e ↦ subst Kept (sym (if_false _ _ (same ∙ e))) (
          second_by n (cancel_stage (last_done first) first n)
            (Left-Alone p n left a b r refl z (ground (arith, w.waits_, e, g)))
            (cancel_stage-Cancelling (last_done first) first n))
    ]

-- A guarded body waits, and one of its stages runs and ends. Then the parent is resumed, once, if the other
-- stage has ended, is not there, or ends at once when it is cancelled, and nothing runs any more; if not,
-- the parent is not resumed, a stage runs, and one that is left alone has been cancelled. A second stage is
-- destroyed once at most, and has a result only if it ended with one.
pub stage_ends_lem :
    (s : Part) (m : With) → Waits m → is_running s m ≡ true → Kept (on_stage_done s m)
stage_ends_lem first = first_ends
stage_ends_lem second = second_ends
