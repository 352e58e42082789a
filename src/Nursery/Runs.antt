-- ===== src/Nursery/Runs.antt =====
-- Any sequence of calls on a nursery (corral/Nursery.h) once its scope has been entered.
use corral.Base.{
  ℕ, ◌+◌, ◌-◌, ◌≡◌, refl, Bool, true, false, not, ◌&&◌, Option, none, some, List, [], ◌∷◌, ◌==◌,
  has, ◌||◌, arith,
}
use corral.Nursery.{
  Job, destroy, resume_parent, Nursery, opened, continuation, do_cancel, cancel, store_error, end,
  start, Retval, join, cancels, fails, store_value, store_retval, enter, end_body, start_pending,
  hand_off, end_pending, run_next,
}
use corral.Nursery.Inv.{has-parent, resumes, resume_last}
use corral.Nursery.Steps.{
  is_none, Inv, cancel-Keeps, store_value-Keeps, store_retval-Keeps, continuation-Inv, adopt-Inv,
  pending-Inv, run_next-Inv,
}

-- A task is started, or has ended already with a value that may carry an error; a task, or the body,
-- ends; the nursery is cancelled; a task is started outside of it, handed off to it, or ends before that;
-- the executor takes a step. Each call that cancels says which tasks end as soon as they are cancelled.
pub data Call : Type 0 where
  starts : (ℕ → Bool) → Option ℕ → Option ℕ → Call
  ends : (ℕ → Bool) → ℕ → Option ℕ → Call
  ends_body : (ℕ → Bool) → ℕ → Retval → Call
  cancels_all : (ℕ → Bool) → Call
  starts_pending ends_pending : Call
  hands_off : ℕ → Call
  runs : Call

-- A nursery is open to new tasks while its parent waits; a new task is not one that is there, and the
-- task that ends is one that is, and runs, so that it is not ended by a cancellation.
unfoldable pub allowed : Call → Nursery → Bool
allowed (starts quick none value) n = n.parent
allowed (starts quick (some p) value) n = n.parent && not (has p n.tasks)
allowed (ends quick p value) n = has p n.tasks && not (quick p)
allowed (ends_body quick p r) n = has p n.tasks && not (quick p)
allowed (cancels_all quick) n = true
allowed starts_pending n = n.parent
allowed ends_pending n = not (n.pending_task_count == 0)
allowed (hands_off p) n = not (n.pending_task_count == 0) && not (has p n.tasks)
allowed runs n = true

unfoldable pub step : Call → Nursery → Nursery
step (starts quick task value) n = start quick task value n
step (ends quick p value) n = end quick p value n
step (ends_body quick p r) n = end_body quick p r n
step (cancels_all quick) n = cancel quick n
step starts_pending n = start_pending n
step ends_pending n = end_pending n
step (hands_off p) n = hand_off p n
step runs n = run_next n

unfoldable pub all_allowed : List Call → Nursery → Bool
unfolding allowed step
all_allowed [] n = true
all_allowed (c ∷ cs) n = let rest = all_allowed cs (step c n) in allowed c n && rest

unfoldable pub runs_to : List Call → Nursery → Nursery
unfolding step
runs_to [] n = n
runs_to (c ∷ cs) n = runs_to cs (step c n)

pending-parent : (n : Nursery) → Inv n → not (n.pending_task_count == 0) ≡ true → n.parent ≡ true
pending-parent n v h = ground (arith, v.core.closed, h)

pub step-Inv : (c : Call) (n : Nursery) → Inv n → allowed c n ≡ true → Inv (step c n)
unfolding allowed step
step-Inv (starts quick none value) n v ok = (store_value-Keeps quick value n v ok).inv
step-Inv (starts quick (some p) value) n v ok =
    adopt-Inv p n v (ground (arith, ok)) (ground (arith, ok))
step-Inv (ends quick p value) n v ok =
    let k = store_value-Keeps quick value n v (has-parent p v.core (ground (arith, ok))) in
    continuation-Inv p (store_value quick value n) k.inv
      (k.kept p (ground (arith, ok)) (ground (arith, ok)))
step-Inv (ends_body quick p r) n v ok =
    let k = store_retval-Keeps quick r n v (has-parent p v.core (ground (arith, ok))) in
    continuation-Inv p (store_retval quick r n) k.inv
      (k.kept p (ground (arith, ok)) (ground (arith, ok)))
step-Inv (cancels_all quick) n v ok = (cancel-Keeps quick n v).inv
step-Inv starts_pending n v ok = pending-Inv (n.pending_task_count + 1) n v ok
step-Inv ends_pending n v ok = pending-Inv (n.pending_task_count - 1) n v (pending-parent n v ok)
step-Inv (hands_off p) n v ok =
    let a = pending-parent n v (ground (arith, ok)) in
    adopt-Inv p (record n { pending_task_count = n.pending_task_count - 1 })
      (pending-Inv (n.pending_task_count - 1) n v a) a (ground (arith, ok))
step-Inv runs n v ok = run_next-Inv n.jobs n v

pub runs_to-Inv :
    (cs : List Call) (n : Nursery) → Inv n → all_allowed cs n ≡ true → Inv (runs_to cs n)
unfolding runs_to all_allowed
runs_to-Inv [] n v ok = v
runs_to-Inv (c ∷ cs) n v ok =
    runs_to-Inv cs (step c n) (step-Inv c n v (ground (arith, ok))) (ground (arith, ok))

opened-Inv : Inv opened
unfolding resumes resume_last has
opened-Inv = record {
  core = record {
    counted = refl;
    open_ = refl;
    closed = refl;
    once = refl;
    last = refl;
    finished = refl;
    sound = refl;
    lives = refl;
  };
  unique = tt;
  told = λ i c h. h;
  failed = refl;
}

-- A scope that is left with nothing to wait for.
abbrev left : Bool → Option ℕ → Nursery
left c e = record opened {
  executor = false;
  parent = false;
  cancelling = c;
  error = e;
  jobs = resume_parent ∷ [];
}

left-Inv : (c : Bool) (e : Option ℕ) → (is_none e || c) ≡ true → Inv (left c e)
unfolding resumes resume_last has
left-Inv c e h = record {
  core = record {
    counted = refl;
    open_ = refl;
    closed = refl;
    once = refl;
    last = refl;
    finished = refl;
    sound = refl;
    lives = refl;
  };
  unique = tt;
  told = λ i _ k. absurd (ground (arith, k));
  failed = h;
}

enter-Inv : (quick : ℕ → Bool) (body : Option ℕ) (r : Retval) → Inv (enter quick body r opened)
unfolding has continuation cancel do_cancel store_error
enter-Inv quick none join = left-Inv false none refl
enter-Inv quick none cancels = left-Inv true none refl
enter-Inv quick none (fails e) = left-Inv true (some e) refl
enter-Inv quick (some p) r = adopt-Inv p opened opened-Inv refl refl

-- After a scope has been entered, and any calls that are allowed: the count is that of the tasks, each of
-- which is there once; the nursery is open exactly while its parent has not been given back, and when it
-- has, no task is left nor one being started; the parent is resumed at most once, after every other job;
-- each task has been told if the nursery is being cancelled, which it is if there was an error; and no
-- assertion fails.
pub runs_to-enter :
    (quick : ℕ → Bool) (body : Option ℕ) (r : Retval) (cs : List Call)
    → all_allowed cs (enter quick body r opened) ≡ true
    → Inv (runs_to cs (enter quick body r opened))
runs_to-enter quick body r cs ok =
    runs_to-Inv cs (enter quick body r opened) (enter-Inv quick body r) ok

-- A call that starts nothing.
abbrev pub starts_nothing : List Call → Bool
starts_nothing [] = true
starts_nothing (starts quick task value ∷ cs) = false
starts_nothing (starts_pending ∷ cs) = false
starts_nothing (c ∷ cs) = starts_nothing cs

-- Nothing is left to wait for, and the parent waits.
pub record Abandoned (n : Nursery) : Type 0 where
  pub no_tasks : n.tasks ≡ []
  pub none_pending : n.pending_task_count ≡ 0
  pub waits : n.parent ≡ true

run_next-Abandoned :
    (js : List Job) (n : Nursery) → n.jobs ≡ js → Abandoned n → Abandoned (run_next n)
unfolding run_next
run_next-Abandoned [] n e v = record {
  no_tasks = ground (arith, e, v.no_tasks);
  none_pending = ground (arith, e, v.none_pending);
  waits = ground (arith, e, v.waits);
}
run_next-Abandoned (destroy p ∷ js) n e v = record {
  no_tasks = ground (arith, e, v.no_tasks);
  none_pending = ground (arith, e, v.none_pending);
  waits = ground (arith, e, v.waits);
}
run_next-Abandoned (resume_parent ∷ js) n e v = record {
  no_tasks = ground (arith, e, v.no_tasks);
  none_pending = ground (arith, e, v.none_pending);
  waits = ground (arith, e, v.waits);
}

step-Abandoned :
    (c : Call) (n : Nursery)
    → Abandoned n
    → allowed c n ≡ true
    → starts_nothing (c ∷ []) ≡ true
    → Abandoned (step c n)
unfolding allowed step cancel do_cancel has
step-Abandoned (starts quick task value) n v ok s = absurd (ground (arith, s))
step-Abandoned starts_pending n v ok s = absurd (ground (arith, s))
step-Abandoned (ends quick p value) n v ok s = absurd (ground (arith, ok, v.no_tasks))
step-Abandoned (ends_body quick p r) n v ok s = absurd (ground (arith, ok, v.no_tasks))
step-Abandoned ends_pending n v ok s = absurd (ground (arith, ok, v.none_pending))
step-Abandoned (hands_off p) n v ok s = absurd (ground (arith, ok, v.none_pending))
step-Abandoned (cancels_all quick) n v ok s = record {
  no_tasks = ground (arith, v.no_tasks);
  none_pending = ground (arith, v.no_tasks, v.none_pending);
  waits = ground (arith, v.no_tasks, v.waits);
}
step-Abandoned runs n v ok s = run_next-Abandoned n.jobs n refl v

starts_nothing-cons :
    (c : Call) (cs : List Call)
    → starts_nothing (c ∷ cs) ≡ true
    → (starts_nothing (c ∷ []) ≡ true) × (starts_nothing cs ≡ true)
starts_nothing-cons (starts quick task value) cs s = absurd (ground (arith, s))
starts_nothing-cons starts_pending cs s = absurd (ground (arith, s))
starts_nothing-cons (ends quick p value) cs s = (refl, s)
starts_nothing-cons (ends_body quick p r) cs s = (refl, s)
starts_nothing-cons ends_pending cs s = (refl, s)
starts_nothing-cons (hands_off p) cs s = (refl, s)
starts_nothing-cons (cancels_all quick) cs s = (refl, s)
starts_nothing-cons runs cs s = (refl, s)

runs_to-Abandoned :
    (cs : List Call) (n : Nursery)
    → Abandoned n
    → all_allowed cs n ≡ true
    → starts_nothing cs ≡ true
    → Abandoned (runs_to cs n)
unfolding runs_to all_allowed
runs_to-Abandoned [] n v ok s = v
runs_to-Abandoned (c ∷ cs) n v ok s =
    let (one, others) = starts_nothing-cons c cs s in
    runs_to-Abandoned cs (step c n) (step-Abandoned c n v (ground (arith, ok)) one)
      (ground (arith, ok)) others

-- A nursery has no task left, its parent waits, and the last task that is being started outside of it ends
-- before it was handed off. Then the parent is never resumed, whatever allowed calls follow that start no
-- task, though nothing is left to wait for.
pub runs_to-stuck :
    (n : Nursery) (cs : List Call)
    → Inv n
    → n.tasks ≡ []
    → n.parent ≡ true
    → n.pending_task_count ≡ 1
    → all_allowed (ends_pending ∷ cs) n ≡ true
    → starts_nothing cs ≡ true
    → Abandoned (runs_to (ends_pending ∷ cs) n) × ((runs_to (ends_pending ∷ cs) n).resumed ≡ 0)
unfolding runs_to all_allowed step
runs_to-stuck n cs v e f g ok s =
    let first : Abandoned (end_pending n) = record {
      no_tasks = e;
      none_pending = ground (arith, g);
      waits = f;
    } in
    let w = runs_to-Abandoned cs (end_pending n) first (ground (arith, ok)) s in
    let u = runs_to-Inv (ends_pending ∷ cs) n v ok in (w, ground (arith, u.core.once, w.waits))
