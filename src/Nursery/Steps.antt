-- ===== src/Nursery/Steps.antt =====
-- How each call on a nursery (corral/Nursery.h) keeps its invariant.
use corral.Base.{
  ℕ, ◌+◌, ◌≡◌, refl, sym, subst, ◌∙◌, ◌⊎◌, Bool, true, false, not, ◌||◌, Option, none, some, List,
  [], ◌∷◌, ◌++◌, has, by_true, by_false, has-append, has-append_right, length-append, snoc-IsUnique,
  IsUnique, remove-IsUnique, Bool-cases, inl, inr, arith,
}
use corral.Nursery.{
  Job, destroy, resume_parent, Nursery, is_empty, continuation, do_cancel, cancel, adopt,
  store_error, store_value, Retval, join, cancels, fails, store_retval, run_job, run_next,
}
use corral.Nursery.Inv.{resumes, resume_last, Core, continuation-Core}
use corral.Nursery.Cancel.{
  cancel_each-Told, within_self, continuation-tasks, continuation-told, continuation-error,
  continuation-cancelling, has-remove_within,
}

abbrev pub is_none : Option ℕ → Bool
is_none none = true
is_none (some e) = false

-- A nursery with its tasks each there once; if it is being cancelled then every task has been told, and
-- it is being cancelled if there was an error.
pub record Inv (n : Nursery) : Type 0 where
  pub core : Core n
  pub unique : IsUnique n.tasks
  pub told : (i : ℕ) → n.cancelling ≡ true → has i n.tasks ≡ true → has i n.told ≡ true
  pub failed : (is_none n.error || n.cancelling) ≡ true

pub set-Core :
    (c : Bool) (e : Option ℕ) {n : Nursery} → Core n → Core (record n { cancelling = c; error = e })
set-Core c e v = record {
  counted = v.counted;
  open_ = v.open_;
  closed = v.closed;
  once = v.once;
  last = v.last;
  finished = v.finished;
  sound = v.sound;
  lives = v.lives;
}

is_empty-has : (i : ℕ) (ps : List ℕ) → is_empty ps ≡ true → has i ps ≡ false
unfolding has
is_empty-has i [] h = refl
is_empty-has i (p ∷ ps) h = ground (arith, h)

do_cancel-Inv :
    (quick : ℕ → Bool) (n : Nursery)
    → Core n
    → IsUnique n.tasks
    → n.cancelling ≡ true
    → Inv (do_cancel quick n)
unfolding do_cancel
do_cancel-Inv quick n v u c = elim (Bool-cases (not n.executor || is_empty n.tasks)) [
  | inl nothing ↦ simp nothing (record {
    core = v;
    unique = u;
    told = λ i _ h. absurd (ground (arith, v.open_, v.closed, nothing, is_empty-has i n.tasks, h));
    failed = ground (arith, c);
  })
  | inr tasks ↦
      let t = cancel_each-Told quick n.tasks n v u u (within_self n.tasks) in
      simp tasks (record {
        core = t.core;
        unique = t.unique;
        told = λ i _ h. t.now i (t.fewer i h);
        failed = ground (arith, c, t.same_cancelling);
      })
]

-- A task that does not end when it is cancelled stays.
do_cancel-kept :
    (quick : ℕ → Bool) (i : ℕ) (n : Nursery)
    → Core n
    → IsUnique n.tasks
    → quick i ≡ false
    → has i n.tasks ≡ true
    → has i (do_cancel quick n).tasks ≡ true
unfolding do_cancel
do_cancel-kept quick i n v u slow h = elim (Bool-cases (not n.executor || is_empty n.tasks)) [
  | inl nothing ↦ simp nothing h
  | inr tasks ↦
      simp tasks ((cancel_each-Told quick n.tasks n v u u (within_self n.tasks)).kept i slow h)
]

-- A call that cancels leaves the tasks that do not end at once.
pub record Keeps (quick : ℕ → Bool) (n m : Nursery) : Type 0 where
  pub inv : Inv m
  pub kept : (i : ℕ) → quick i ≡ false → has i n.tasks ≡ true → has i m.tasks ≡ true

pub cancel-Keeps : (quick : ℕ → Bool) (n : Nursery) → Inv n → Keeps quick n (cancel quick n)
unfolding cancel
cancel-Keeps quick n v = elim (Bool-cases n.cancelling) [
  | inl again ↦ simp again (record { inv = v; kept = λ i q h. h })
  | inr first ↦
      let m : Nursery = record n { cancelling = true } in
      let c = set-Core true n.error v.core in
      simp first (record {
        inv = do_cancel-Inv quick m c v.unique refl;
        kept = λ i q h. do_cancel-kept quick i m c v.unique q h;
      })
]

pub store_error-Keeps :
    (quick : ℕ → Bool) (e : ℕ) (n : Nursery)
    → Inv n
    → n.parent ≡ true
    → Keeps quick n (store_error quick e n)
unfolding store_error
store_error-Keeps quick e n v a =
    let f : Option ℕ = elim n.error [ none ↦ some e | some g ↦ some g ] in
    let m : Nursery = record n { cancelling = true; error = f } in
    let c = set-Core true f v.core in
    let attached : not n.parent ≡ false = ground (arith, a) in
    by_false (Keeps quick n) _ attached (elim (Bool-cases n.cancelling) [
      | inl again ↦
          let on : not n.cancelling ≡ false = ground (arith, again) in
          by_false (Keeps quick n) _ on (record {
            inv = record {
              core = c;
              unique = v.unique;
              told = λ i _ h. v.told i again h;
              failed = ground arith;
            };
            kept = λ i q h. h;
          })
      | inr first ↦
          let off : not n.cancelling ≡ true = ground (arith, first) in
          by_true (Keeps quick n) _ off (record {
            inv = do_cancel-Inv quick m c v.unique refl;
            kept = λ i q h. do_cancel-kept quick i m c v.unique q h;
          })
    ])

pub store_value-Keeps :
    (quick : ℕ → Bool) (value : Option ℕ) (n : Nursery)
    → Inv n
    → n.parent ≡ true
    → Keeps quick n (store_value quick value n)
store_value-Keeps quick none n v a = record { inv = v; kept = λ i q h. h }
store_value-Keeps quick (some e) n v a = store_error-Keeps quick e n v a

pub store_retval-Keeps :
    (quick : ℕ → Bool) (r : Retval) (n : Nursery)
    → Inv n
    → n.parent ≡ true
    → Keeps quick n (store_retval quick r n)
store_retval-Keeps quick join n v a = record { inv = v; kept = λ i q h. h }
store_retval-Keeps quick cancels n v a = cancel-Keeps quick n v
store_retval-Keeps quick (fails e) n v a = store_error-Keeps quick e n v a

pub continuation-Inv :
    (p : ℕ) (n : Nursery) → Inv n → has p n.tasks ≡ true → Inv (continuation (some p) n)
continuation-Inv p n v here = record {
  core = continuation-Core p n v.core here;
  unique = rw (continuation-tasks p n) (remove-IsUnique p n.tasks v.unique);
  told = λ i c h. rw (continuation-told p n) (
      v.told i (sym (continuation-cancelling p n) ∙ c)
        (has-remove_within p i n.tasks (rw (continuation-tasks p n) at h)));
  failed = rw (continuation-error p n, continuation-cancelling p n) v.failed;
}

has-snoc : (i p : ℕ) (ps : List ℕ) → has i (ps ++ p ∷ []) ≡ true → (has i ps ≡ true) ⊎ (p ≡ i)
unfolding has
has-snoc i p [] h = inr (ground (arith, h))
has-snoc i p (q ∷ ps) h = ground (arith, h, has-snoc i p ps)

-- A task is put behind the others, and has been told if the nursery is being cancelled.
push-Inv :
    (p : ℕ) (ts : List ℕ) (n : Nursery)
    → Inv n
    → n.parent ≡ true
    → has p n.tasks ≡ false
    → ((i : ℕ) → has i n.told ≡ true → has i ts ≡ true)
    → (n.cancelling ≡ true → has p ts ≡ true)
    → Inv (record n { tasks = n.tasks ++ p ∷ []; task_count = n.task_count + 1; told = ts })
push-Inv p ts n v a new still now = record {
  core = record {
    counted = omega (arith, v.core.counted, length-append n.tasks (p ∷ []));
    open_ = v.core.open_;
    closed = ground (arith, a);
    once = v.core.once;
    last = v.core.last;
    finished = v.core.finished;
    sound = v.core.sound;
    lives = v.core.lives;
  };
  unique = snoc-IsUnique p n.tasks v.unique new;
  told = λ i c h. elim (has-snoc i p n.tasks h) [
    | inl before ↦ still i (v.told i c before)
    | inr itself ↦ subst (λ k. has k ts ≡ true) itself (now c)
  ];
  failed = v.failed;
}

pub adopt-Inv :
    (p : ℕ) (n : Nursery) → Inv n → n.parent ≡ true → has p n.tasks ≡ false → Inv (adopt p n)
unfolding adopt has
adopt-Inv p n v a new = by_true Inv _ (v.core.open_ ∙ a) (elim (Bool-cases n.cancelling) [
  | inl c ↦
      by_true (λ m. Inv (record m { tasks = m.tasks ++ p ∷ []; task_count = m.task_count + 1 })) _ c
        (push-Inv p (n.told ++ p ∷ []) n v a new (λ i h. has-append i n.told (p ∷ []) h)
          (λ _. has-append_right p n.told (p ∷ []) (ground arith)))
  | inr free ↦
      by_false (λ m. Inv (record m { tasks = m.tasks ++ p ∷ []; task_count = m.task_count + 1 })) _
        free (push-Inv p n.told n v a new (λ i h. h) (λ c. absurd (ground (arith, c, free))))
])

-- The number of tasks that are being started outside of the nursery changes.
pub pending-Inv :
    (k : ℕ) (n : Nursery) → Inv n → n.parent ≡ true → Inv (record n { pending_task_count = k })
pending-Inv k n v a = record {
  core = record {
    counted = v.core.counted;
    open_ = v.core.open_;
    closed = ground (arith, a);
    once = v.core.once;
    last = v.core.last;
    finished = v.core.finished;
    sound = v.core.sound;
    lives = v.core.lives;
  };
  unique = v.unique;
  told = v.told;
  failed = v.failed;
}

job-Inv :
    (j : Job) (js : List Job) (n : Nursery)
    → Inv (record n { jobs = j ∷ js })
    → Inv (run_job j (record n { jobs = js }))
unfolding resumes resume_last
job-Inv (destroy p) js n v = record {
  core = record {
    counted = v.core.counted;
    open_ = v.core.open_;
    closed = v.core.closed;
    once = v.core.once;
    last = v.core.last;
    finished = ground (arith, v.core.finished);
    sound = v.core.sound;
    lives = v.core.lives;
  };
  unique = v.unique;
  told = v.told;
  failed = v.failed;
}
job-Inv resume_parent [] n v = record {
  core = record {
    counted = v.core.counted;
    open_ = v.core.open_;
    closed = v.core.closed;
    once = omega (arith, v.core.once);
    last = refl;
    finished = ground arith;
    sound = v.core.sound;
    lives = v.core.lives;
  };
  unique = v.unique;
  told = v.told;
  failed = v.failed;
}
job-Inv resume_parent (k ∷ js) n v = absurd (ground (arith, v.core.last))

pub run_next-Inv :
    (js : List Job) (n : Nursery)
    → Inv (record n { jobs = js })
    → Inv (run_next (record n { jobs = js }))
unfolding run_next
run_next-Inv [] n v = v
run_next-Inv (j ∷ js) n v = job-Inv j js n v
