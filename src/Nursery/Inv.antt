-- ===== src/Nursery/Inv.antt =====
-- What holds of a nursery (corral/Nursery.h) between two calls, and how `continuation` and `adopt` keep it.
use corral.Base.{
  ℕ, ap, ◌+◌, ◌≡◌, refl, sym, subst, ◌∙◌, Bool, true, false, ◌&&◌, ◌||◌, some, List, [], ◌∷◌, ◌++◌,
  if◌then◌else◌, ◌==◌, length, has, remove, length-remove, Bool-cases, inl, inr, arith,
}
use corral.Nursery.{Job, destroy, resume_parent, Nursery, is_empty, forget, run_soon, continuation}

unfoldable pub resumes : List Job → ℕ
resumes [] = 0
resumes (destroy p ∷ js) = resumes js
resumes (resume_parent ∷ js) = 1 + resumes js

-- Whether nothing comes after the resumption of the parent.
unfoldable pub resume_last : List Job → Bool
resume_last [] = true
resume_last (destroy p ∷ js) = resume_last js
resume_last (resume_parent ∷ []) = true
resume_last (resume_parent ∷ j ∷ js) = false

abbrev pub no_jobs : List Job → Bool
no_jobs [] = true
no_jobs (j ∷ js) = false

-- The tasks are counted, and the nursery is open while it has its parent; when it has not, nothing is
-- left to wait for. The parent is resumed once, after every job that was given before.
pub record Core (n : Nursery) : Type 0 where
  pub counted : n.task_count ≡ length n.tasks
  pub open_ : n.executor ≡ n.parent
  pub closed : (n.parent || (is_empty n.tasks && n.pending_task_count == 0)) ≡ true
  pub once : n.resumed + resumes n.jobs ≡ (if n.parent then 0 else 1)
  pub last : resume_last n.jobs ≡ true
  pub finished : (n.resumed == 0 || no_jobs n.jobs) ≡ true
  pub sound : n.broken ≡ false
  pub lives : n.terminated ≡ false

resumes-snoc_destroy : (js : List Job) (p : ℕ) → resumes (js ++ destroy p ∷ []) ≡ resumes js
unfolding resumes
resumes-snoc_destroy [] p = refl
resumes-snoc_destroy (destroy q ∷ js) p = resumes-snoc_destroy js p
resumes-snoc_destroy (resume_parent ∷ js) p = ap (λ k. 1 + k) (resumes-snoc_destroy js p)

resumes-snoc_resume : (js : List Job) → resumes (js ++ resume_parent ∷ []) ≡ resumes js + 1
unfolding resumes
resumes-snoc_resume [] = refl
resumes-snoc_resume (destroy q ∷ js) = resumes-snoc_resume js
resumes-snoc_resume (resume_parent ∷ js) = omega (arith, resumes-snoc_resume js)

resume_last-snoc : (js : List Job) (j : Job) → resumes js ≡ 0 → resume_last (js ++ j ∷ []) ≡ true
unfolding resumes resume_last
resume_last-snoc [] (destroy p) h = refl
resume_last-snoc [] resume_parent h = refl
resume_last-snoc (destroy q ∷ js) j h = resume_last-snoc js j h
resume_last-snoc (resume_parent ∷ js) j h = absurd (omega (arith, h))

has-is_empty : (p : ℕ) (ps : List ℕ) → has p ps ≡ true → is_empty ps ≡ false
unfolding has
has-is_empty p [] h = sym h
has-is_empty p (q ∷ ps) h = refl

-- A nursery that waits for something has its parent.
pub has-parent : (p : ℕ) {n : Nursery} → Core n → has p n.tasks ≡ true → n.parent ≡ true
has-parent p {n} v here = ground (arith, v.closed, has-is_empty p n.tasks here)

-- With its parent there, a job is given.
pub run_soon-Core :
    (p : ℕ) {n : Nursery} → Core n → n.parent ≡ true → Core (run_soon true (destroy p) n)
run_soon-Core p {n} v attached = record {
  counted = v.counted;
  open_ = v.open_;
  closed = v.closed;
  once = ground (arith, v.once, resumes-snoc_destroy n.jobs p);
  last = resume_last-snoc n.jobs (destroy p) (ground (arith, v.once, attached));
  finished = ground (arith, v.once, attached);
  sound = v.sound;
  lives = v.lives;
}

pub close-Core :
    {n : Nursery}
    → Core n
    → n.parent ≡ true
    → (is_empty n.tasks && n.pending_task_count == 0) ≡ true
    → Core (run_soon true resume_parent (record n { parent = false; executor = false }))
close-Core {n} v attached over = record {
  counted = v.counted;
  open_ = refl;
  closed = over;
  once = ground (arith, v.once, attached, resumes-snoc_resume n.jobs);
  last = resume_last-snoc n.jobs resume_parent (ground (arith, v.once, attached));
  finished = ground (arith, v.once, attached);
  sound = v.sound;
  lives = v.lives;
}

forget-Core : (p : ℕ) {n : Nursery} → Core n → has p n.tasks ≡ true → Core (forget (some p) n)
forget-Core p {n} v here = record {
  counted = ground (arith, v.counted, length-remove p n.tasks here);
  open_ = v.open_;
  closed = ground (arith, has-parent p v here);
  once = v.once;
  last = v.last;
  finished = v.finished;
  sound = v.sound;
  lives = v.lives;
}

-- A nursery that is open is one with both pointers set.
pub open-only :
    (P : Nursery → Type 0) {n : Nursery}
    → n.executor ≡ true
    → n.parent ≡ true
    → P (record n { executor = true; parent = true })
    → P n
open-only P {n} e a h =
    subst (λ b. P (record n { executor = b })) (sym e)
      (subst (λ b. P (record n { executor = true; parent = b })) (sym a) h)

open-Core :
    {n : Nursery} → Core n → n.parent ≡ true → Core (record n { executor = true; parent = true })
open-Core v a = record {
  counted = v.counted;
  open_ = refl;
  closed = refl;
  once = ground (arith, v.once, a);
  last = v.last;
  finished = v.finished;
  sound = v.sound;
  lives = v.lives;
}

open_continuation-Core :
    (p : ℕ) (n : Nursery)
    → Core (record n { executor = true; parent = true })
    → has p n.tasks ≡ true
    → Core (continuation (some p) (record n { executor = true; parent = true }))
unfolding continuation
open_continuation-Core p n v here =
    let w = run_soon-Core p (forget-Core p v here) refl in
    elim (Bool-cases (is_empty (remove p n.tasks) && n.pending_task_count == 0)) [
      | inl over ↦ simp over (close-Core w refl over)
      | inr more ↦ simp more w
    ]

-- A task of the nursery ends.
pub continuation-Core :
    (p : ℕ) (n : Nursery) → Core n → has p n.tasks ≡ true → Core (continuation (some p) n)
continuation-Core p n v here =
    let a = has-parent p v here in
    open-only (λ m. Core (continuation (some p) m)) (v.open_ ∙ a) a
      (open_continuation-Core p n (open-Core v a) here)
