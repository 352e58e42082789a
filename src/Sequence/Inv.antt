-- ===== src/Sequence/Inv.antt =====
-- The invariant of a sequence of two awaitables (corral/detail/Sequence.h) and what keeps it.
use corral.Base.{
  ℕ, ◌+◌, ◌≤◌, ◌≡◌, refl, sym, subst, ap, Bool, true, false, not, ◌||◌, ◌==◌, if◌then◌else◌, arith,
}
use corral.Promise.{OnCancel, completes, waits, resumes}
use corral.Sequence.{
  Stage, no_stage, first_stage, second_stage, exception, is_first, is_second, is_exception, Answers,
  Sequence, resume_parent, kick_off_second, cancel_by,
}

abbrev pub one_if : Bool → ℕ
one_if b = if b then 1 else 0

-- The parent is resumed at most once, and until then a stage is under way; the first result is taken at
-- most once, and a second stage is built at most once and exists only as such. Without a cancellation
-- the parent is resumed with a result or an exception to take.
pub record Inv (s : Sequence) : Type 0 where
  pub sound : s.broken ≡ false
  pub balance : s.built ≡ s.destroyed + one_if (is_second s.stage)
  pub built_once : s.built ≤ s.taken
  pub taken_once : s.taken + one_if (is_first s.stage) ≤ 1
  pub resumed_once : s.resumed ≤ 1
  pub under_way : (not (s.resumed == 0) || is_first s.stage || is_second s.stage) ≡ true
  pub has_result :
      (s.resumed == 0 || s.cancelling || is_second s.stage || is_exception s.stage) ≡ true

-- A sequence in its first stage, whatever else.
abbrev pub at_first : Sequence → Sequence
at_first s = record s {
  stage = first_stage;
  resumed = 0;
  taken = 0;
  built = 0;
  destroyed = 0;
  broken = false;
}

pub kick_off-Inv : (a : Answers) (s : Sequence) → Inv (kick_off_second a (at_first s))
unfolding kick_off_second
kick_off-Inv a s = record {
  sound = ground arith;
  balance = ground arith;
  built_once = ground arith;
  taken_once = ground arith;
  resumed_once = ground arith;
  under_way = ground arith;
  has_result = ground arith;
}

is_first-eq : (g : Stage) → is_first g ≡ true → g ≡ first_stage
is_first-eq first_stage e = refl
is_first-eq no_stage e = cc
is_first-eq second_stage e = cc
is_first-eq exception e = cc

-- In its first stage a sequence has done nothing yet.
first-eq : (s : Sequence) → Inv s → is_first s.stage ≡ true → s.resumed ≡ 0 → s ≡ at_first s
first-eq s v e r =
    let f = is_first-eq s.stage e in
    let taken : s.taken ≡ 0 = ground (arith, v.taken_once, e) in
    let built : s.built ≡ 0 = omega (arith, v.built_once, taken) in
    let destroyed : s.destroyed ≡ 0 = omega (arith, v.balance, built) in
    λ i. record s {
      stage = f i;
      resumed = r i;
      taken = taken i;
      built = built i;
      destroyed = destroyed i;
      broken = v.sound i;
    }

pub first_done-Inv :
    (a : Answers) (s : Sequence)
    → Inv s
    → is_first s.stage ≡ true
    → s.resumed ≡ 0
    → Inv (kick_off_second a s)
first_done-Inv a s v e r =
    subst (λ t. Inv (kick_off_second a t)) (sym (first-eq s v e r)) (kick_off-Inv a s)

pub second_done-Inv :
    (s : Sequence) → Inv s → is_second s.stage ≡ true → s.resumed ≡ 0 → Inv (resume_parent s)
second_done-Inv s v e r = record {
  sound = v.sound;
  balance = v.balance;
  built_once = v.built_once;
  taken_once = v.taken_once;
  resumed_once = omega (arith, r);
  under_way = ground (arith, r);
  has_result = ground (arith, e);
}

pub cancelling-Inv : (s : Sequence) → Inv s → Inv (record s { cancelling = true })
cancelling-Inv s v = record {
  sound = v.sound;
  balance = v.balance;
  built_once = v.built_once;
  taken_once = v.taken_once;
  resumed_once = v.resumed_once;
  under_way = v.under_way;
  has_result = ground arith;
}

pub abandoned-Inv : (b : Bool) (s : Sequence) → Inv s → Inv (record s { abandoned = b })
abandoned-Inv b s v = record {
  sound = v.sound;
  balance = v.balance;
  built_once = v.built_once;
  taken_once = v.taken_once;
  resumed_once = v.resumed_once;
  under_way = v.under_way;
  has_result = v.has_result;
}

pub cancel_by-Inv :
    (g : Stage) (o : OnCancel) (a : Answers) (s : Sequence)
    → Inv s
    → s.stage ≡ g
    → s.resumed ≡ 0
    → Inv (cancel_by g o a s).0
unfolding cancel_by
cancel_by-Inv first_stage completes a s v e r = v
cancel_by-Inv first_stage waits a s v e r = v
cancel_by-Inv first_stage resumes a s v e r = first_done-Inv a s v (ap is_first e) r
cancel_by-Inv second_stage completes a s v e r = v
cancel_by-Inv second_stage waits a s v e r = v
cancel_by-Inv second_stage resumes a s v e r = second_done-Inv s v (ap is_second e) r
cancel_by-Inv no_stage o a s v e r = v
cancel_by-Inv exception o a s v e r = v

pub at_first-Inv : (s : Sequence) → Inv (at_first s)
at_first-Inv s = record {
  sound = refl;
  balance = refl;
  built_once = omega arith;
  taken_once = omega arith;
  resumed_once = omega arith;
  under_way = refl;
  has_result = refl;
}

pub raised-Inv : (s : Sequence) → Inv (record (at_first s) { raised = true })
raised-Inv s = at_first-Inv (record s { raised = true })
