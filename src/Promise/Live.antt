-- ===== src/Promise/Live.antt =====
-- What holds of a promise (corral/detail/Promise.h) between two calls, and how its own moves keep it.
use corral.Base.{
  ◌+◌, ◌≡◌, refl, Bool, true, false, not, ◌&&◌, if◌then◌else◌, Bool-cases, inl, inr, arith,
}
use corral.Promise.{
  Awaitee, Activity, ready, running, awaiting, Trampoline, do_resume_after_cancel, do_nothing,
  Promise, started, propagate_cancel, schedule, resume_after_cancel,
}

abbrev pub is_running : Activity → Bool
is_running running = true
is_running _ = false

abbrev pub is_ready : Activity → Bool
is_ready ready = true
is_ready _ = false

abbrev pub is_nothing : Trampoline → Bool
is_nothing do_nothing = true
is_nothing _ = false

abbrev pub is_plain : Trampoline → Bool
is_plain do_resume_after_cancel = false
is_plain _ = true

abbrev pub has_awaiter : Activity → Bool
has_awaiter (awaiting a) = true
has_awaiter _ = false

-- A task that has a parent has ended in no way, and one that has none has ended once: with a value or an
-- exception stored, or cancelled. The executor has one step of a task that is ready and was resumed, and
-- none of any other.
pub record Inv (p : Promise) : Type 0 where
  pub ended : p.continued ≡ (if p.parent then 0 else 1)
  pub outcome : p.stored + p.cancelled ≡ p.continued
  pub steps : p.scheduled ≡ (if is_ready p.activity && is_nothing p.on_resume then 1 else 0)
  pub waiting : (is_ready p.activity && not p.parent) ≡ false
  pub woken : (p.parent && has_awaiter p.activity && is_nothing p.on_resume) ≡ false
  pub unasked : (has_awaiter p.activity && p.requested) ≡ false
  pub plain : (is_ready p.activity && not (is_plain p.on_resume)) ≡ false
  pub sound : p.broken ≡ false

pub started-Inv : Inv started
started-Inv = record {
  ended = refl;
  outcome = refl;
  steps = refl;
  waiting = refl;
  woken = refl;
  unasked = refl;
  plain = refl;
  sound = refl;
}

-- A task that has a parent and no step.
pub record Live (p : Promise) : Type 0 where
  pub attached : p.parent ≡ true
  pub nothing_stored : p.stored ≡ 0
  pub nothing_cancelled : p.cancelled ≡ 0
  pub not_continued : p.continued ≡ 0
  pub no_step : p.scheduled ≡ 0
  pub sound : p.broken ≡ false

pub Inv-Live :
    (p : Promise)
    → Inv p
    → p.parent ≡ true
    → (is_ready p.activity && is_nothing p.on_resume) ≡ false
    → Live p
Inv-Live p v ok idle = record {
  attached = ok;
  nothing_stored = ground (arith, ok, v.ended, v.outcome);
  nothing_cancelled = ground (arith, ok, v.ended, v.outcome);
  not_continued = ground (arith, ok, v.ended);
  no_step = ground (arith, idle, v.steps);
  sound = v.sound;
}

pub Live-update :
    (s : Activity) (r : Bool) (t : Trampoline) {p : Promise}
    → Live p
    → Live (record p { activity = s; requested = r; on_resume = t })
Live-update s r t l = record {
  attached = l.attached;
  nothing_stored = l.nothing_stored;
  nothing_cancelled = l.nothing_cancelled;
  not_continued = l.not_continued;
  no_step = l.no_step;
  sound = l.sound;
}

pub schedule-Inv : (p : Promise) → Live p → Inv (schedule p)
schedule-Inv p l = record {
  ended = ground (arith, l.attached, l.not_continued);
  outcome = omega (arith, l.nothing_stored, l.nothing_cancelled, l.not_continued);
  steps = omega (arith, l.no_step);
  waiting = ground (arith, l.attached);
  woken = ground (arith, l.attached);
  unasked = refl;
  plain = refl;
  sound = l.sound;
}

pub propagate_cancel-Inv :
    (p : Promise)
    → Live p
    → is_ready p.activity ≡ false
    → (has_awaiter p.activity && p.requested) ≡ false
    → Inv (propagate_cancel p)
propagate_cancel-Inv p l idle unasked = rw l.attached (record {
  ended = omega (arith, l.not_continued);
  outcome = omega (arith, l.nothing_stored, l.nothing_cancelled, l.not_continued);
  steps = ground (arith, idle, l.no_step);
  waiting = ground (arith, idle);
  woken = refl;
  unasked = unasked;
  plain = ground (arith, idle);
  sound = l.sound;
})

-- A task that awaits, and will be resumed.
pub waits-Inv :
    (a : Awaitee) (p : Promise)
    → Live p
    → is_nothing p.on_resume ≡ false
    → Inv (record p { activity = awaiting a; requested = false })
waits-Inv a p l hooked = record {
  ended = ground (arith, l.attached, l.not_continued);
  outcome = omega (arith, l.nothing_stored, l.nothing_cancelled, l.not_continued);
  steps = l.no_step;
  waiting = refl;
  woken = ground (arith, hooked);
  unasked = refl;
  plain = refl;
  sound = l.sound;
}

-- A task that runs.
pub runs-Inv : (p : Promise) → Live p → Inv (record p { activity = running })
runs-Inv p l = record {
  ended = ground (arith, l.attached, l.not_continued);
  outcome = omega (arith, l.nothing_stored, l.nothing_cancelled, l.not_continued);
  steps = l.no_step;
  waiting = refl;
  woken = ground (arith, l.attached);
  unasked = refl;
  plain = refl;
  sound = l.sound;
}

pub resume_after_cancel-Inv :
    (a : Awaitee) (p : Promise)
    → Live p
    → Inv (resume_after_cancel (awaiting a) (record p { activity = awaiting a; requested = false }))
resume_after_cancel-Inv a p l = elim (Bool-cases a.await_must_resume) [
  | inl must ↦ simp must (
      schedule-Inv (record p { activity = awaiting a; requested = true })
        (Live-update (awaiting a) true p.on_resume l))
  | inr may ↦ simp may (
      propagate_cancel-Inv (record p { activity = awaiting a; requested = false })
        (Live-update (awaiting a) false p.on_resume l) refl refl)
]
