-- ===== src/With/Cases.antt =====
-- What the end and the cancellation of a stage of a guarded body come to (corral/detail/With.h).
use corral.Base.{
  ◌+◌, ◌≡◌, refl, sym, ◌∙◌, ap, subst, Bool, true, false, not, ◌&&◌, ◌||◌, if◌then◌else◌,
  Bool-cases, inl, inr,
}
use corral.Promise.{OnCancel, completes, waits, resumes}
use corral.With.{
  With, no_stage, exception, is_second, Part, second, flags, awaiter, exists_, mark_cancelling,
  switch_to, cancelled_at_once, cancel_running, cancel_stage, destroy_second, leave_stage,
}

pub if_true : {A : Type 0} (x y : A) {b : Bool} → b ≡ true → (if b then x else y) ≡ x
if_true x y e = ap (λ b. if b then x else y) e

pub if_false : {A : Type 0} (x y : A) {b : Bool} → b ≡ false → (if b then x else y) ≡ y
if_false x y e = ap (λ b. if b then x else y) e

-- A cancellation that goes on already, one of a stage that is not there, and the three ways of one that
-- begins.
pub data Cancelling (on_done : With → With) (s : Part) (m : With) : Bool × With → Type 0 where
  busy : (flags s m).cancelling ≡ true → Cancelling on_done s m (false, m)
  gone :
      (flags s m).cancelling ≡ false
      → (not (exists_ s m) || (flags s m).done) ≡ true
      → Cancelling on_done s m (true, m)
  at_once :
      (flags s m).cancelling ≡ false
      → (not (exists_ s m) || (flags s m).done) ≡ false
      → Cancelling on_done s m (cancelled_at_once s (mark_cancelling s m))
  pending :
      (flags s m).cancelling ≡ false
      → (not (exists_ s m) || (flags s m).done) ≡ false
      → Cancelling on_done s m (false, mark_cancelling s m)
  resumed_at_once :
      (flags s m).cancelling ≡ false
      → (not (exists_ s m) || (flags s m).done) ≡ false
      → (flags s m).started ≡ true
      → Cancelling on_done s m (false, on_done (mark_cancelling s m))

cancel_running-Cancelling :
    (on_done : With → With) (s : Part) (m : With) (c : OnCancel)
    → (flags s m).cancelling ≡ false
    → (not (exists_ s m) || (flags s m).done) ≡ false
    → (flags s m).started ≡ true
    → Cancelling on_done s m (cancel_running on_done s c (mark_cancelling s m))
cancel_running-Cancelling on_done s m completes a b t = at_once a b
cancel_running-Cancelling on_done s m waits a b t = pending a b
cancel_running-Cancelling on_done s m resumes a b t = resumed_at_once a b t

pub cancel_stage-Cancelling :
    (on_done : With → With) (s : Part) (m : With)
    → Cancelling on_done s m (cancel_stage on_done s m)
unfolding cancel_stage
cancel_stage-Cancelling on_done s m = elim (Bool-cases (flags s m).cancelling) [
  | inl a ↦ subst (Cancelling on_done s m) (sym (if_true _ _ a)) (busy a)
  | inr a ↦ elim (Bool-cases (not (exists_ s m) || (flags s m).done)) [
    | inl b ↦ subst (Cancelling on_done s m) (sym (if_false _ _ a ∙ if_true _ _ b)) (gone a b)
    | inr b ↦ elim (Bool-cases (flags s m).started) [
      | inl t ↦
          subst (Cancelling on_done s m) (sym (if_false _ _ a ∙ if_false _ _ b ∙ if_true _ _ t))
            (cancel_running-Cancelling on_done s m (awaiter s m).await_cancel a b t)
      | inr t ↦ elim (Bool-cases (awaiter s m).await_early_cancel) [
        | inl e ↦
            subst (Cancelling on_done s m)
              (sym (if_false _ _ a ∙ if_false _ _ b ∙ if_false _ _ t ∙ if_true _ _ e)) (at_once a b)
        | inr e ↦
            subst (Cancelling on_done s m)
              (sym (if_false _ _ a ∙ if_false _ _ b ∙ if_false _ _ t ∙ if_false _ _ e))
              (pending a b)
      ]
    ]
  ]
]

-- The second stage is not there, or it is left: with an exception, with its result, or without one.
pub data Left (p : With) : With → Type 0 where
  absent : is_second p.stage ≡ false → Left p p
  raised :
      is_second p.stage ≡ true
      → p.second_flags.must_not_resume ≡ false
      → Left p (switch_to exception p)
  stored :
      is_second p.stage ≡ true
      → p.second_flags.must_not_resume ≡ false
      → Left p (switch_to no_stage (record p { taken = p.taken + 1; has_second_result = true }))
  dropped :
      is_second p.stage ≡ true
      → p.second_flags.must_not_resume ≡ true
      → Left p (switch_to no_stage p)

pub leave_stage-Left : (p : With) → Left p (leave_stage second p)
leave_stage-Left p = elim (Bool-cases (is_second p.stage)) [
  | inr e ↦
      let none_ : (is_second p.stage && not p.second_flags.must_not_resume) ≡ false = rw e refl in
      subst (Left p) (sym (ap destroy_second (if_false _ _ none_) ∙ if_false _ _ e)) (absent e)
  | inl e ↦ elim (Bool-cases p.second_flags.must_not_resume) [
    | inl f ↦
        let none_ : (is_second p.stage && not p.second_flags.must_not_resume) ≡ false =
          rw (e, f) refl in
        subst (Left p) (sym (ap destroy_second (if_false _ _ none_) ∙ if_true _ _ e)) (dropped e f)
    | inr f ↦
        let one : (is_second p.stage && not p.second_flags.must_not_resume) ≡ true =
          rw (e, f) refl in
        elim (Bool-cases p.result_throws) [
          | inl g ↦
              subst (Left p) (sym (ap destroy_second (if_true _ _ one ∙ if_true _ _ g)))
                (raised e f)
          | inr g ↦
              subst (Left p)
                (sym (ap destroy_second (if_true _ _ one ∙ if_false _ _ g) ∙ if_true _ _ e))
                (stored e f)
        ]
  ]
]
