-- ===== src/ThreadPool/Places.antt =====
-- Where the tasks of a thread pool (corral/ThreadPool.h) are, and what the calls of its main thread on
-- the submission queue do to that.
use native.Mathlib.Nat.{mod-lt}
use corral.Base.{
  ℕ, zero, suc, ◌+◌, ◌%◌, ◌≤◌, ◌<◌, ◌≡◌, refl, sym, ◌∙◌, ap, ap₂, ◌==◌, ==_iff, List, [], ◌∷◌, ◌++◌,
  append_assoc, Option, none, some, update, if◌then◌else◌, Bool-cases, Option-cases, inl, inr,
  arith,
}
use corral.ThreadPool.{
  Worker, running, Phase, outside, submitting, draining, Pool, push_to_sq, push_at, reverse_batch,
}

-- How often a task stands in a list.
unfoldable pub count : ℕ → List ℕ → ℕ
count a [] = 0
count a (x ∷ xs) = (if x == a then 1 else 0) + count a xs

-- How often a task stands in a slot, or with a worker that runs it.
abbrev pub in_slot : ℕ → Option ℕ → ℕ
in_slot a none = 0
in_slot a (some x) = if x == a then 1 else 0

abbrev pub with_worker : ℕ → Worker → ℕ
with_worker a (running x) = if x == a then 1 else 0
with_worker a _ = 0

-- The sum of a function of the first entries of a table.
unfoldable pub total : {A : Type 0} → (A → ℕ) → ℕ → (ℕ → A) → ℕ
total f zero t = 0
total f (suc n) t = f (t n) + total f n t

abbrev pub batch : Phase → List ℕ
batch outside = []
batch submitting = []
batch (draining bs) = bs

-- How often a task is in a pool, or completed.
abbrev pub present : ℕ → Pool → ℕ
present a p =
    count a p.backoff
    + total (in_slot a) p.sq_capacity p.sq
    + total (with_worker a) p.threads p.workers
    + count a p.completed

-- Each task is in the backoff queue, in a slot, with a worker or completed as often as it was
-- submitted, and parents are resumed in the order in which their tasks were completed.
pub record Inv (p : Pool) : Type 0 where
  pub room : 0 < p.sq_capacity
  pub conserved : (a : ℕ) → count a p.submitted ≡ present a p
  pub in_order : p.completed ≡ p.resumed ++ (batch p.phase ++ reverse_batch [] p.cq)

pub total-update_past :
    {A : Type 0} (f : A → ℕ) (n i : ℕ) (t : ℕ → A) (v : A)
    → n ≤ i
    → total f n (update t i v) ≡ total f n t
unfolding total
total-update_past f zero i t v h = refl
total-update_past f (suc n) i t v h = ground (arith, total-update_past f n i t v)

-- One entry written.
pub total-update :
    {A : Type 0} (f : A → ℕ) (n i : ℕ) (t : ℕ → A) (v : A)
    → i < n
    → total f n (update t i v) + f (t i) ≡ total f n t + f v
unfolding total
total-update f zero i t v h = absurd (omega arith)
total-update f (suc n) i t v h = elim (Bool-cases (n == i)) [
  | inl e ↦ rw e (
      let same : n ≡ i = (==_iff n i).0 e in
      omega (arith, total-update_past f n i t v (omega arith), ap (λ k. f (t k)) same))
  | inr e ↦ rw e (omega (arith, total-update f n i t v (ground (arith, e))))
]

pub count-append : (a : ℕ) (xs ys : List ℕ) → count a (xs ++ ys) ≡ count a xs + count a ys
unfolding count
count-append a [] ys = omega arith
count-append a (x ∷ xs) ys = omega (arith, count-append a xs ys)

pub reverse_batch-onto :
    (prev curr : List ℕ) → reverse_batch prev curr ≡ reverse_batch [] curr ++ prev
unfolding reverse_batch
reverse_batch-onto prev [] = refl
reverse_batch-onto prev (a ∷ curr) =
    reverse_batch-onto (a ∷ prev) curr
    ∙ sym (
        ap (λ (xs : List ℕ). xs ++ prev) (reverse_batch-onto (a ∷ []) curr)
        ∙ append_assoc (reverse_batch [] curr) (a ∷ []) prev)

pub reverse_batch-cons :
    (a : ℕ) (bs : List ℕ) → reverse_batch [] (a ∷ bs) ≡ reverse_batch [] bs ++ a ∷ []
unfolding reverse_batch
reverse_batch-cons a bs = reverse_batch-onto (a ∷ []) bs

-- The calls on the submission queue leave the rest as it was.
pub record Kept (p q : Pool) : Type 0 where
  pub submitted : q.submitted ≡ p.submitted
  pub sq_capacity : q.sq_capacity ≡ p.sq_capacity
  pub threads : q.threads ≡ p.threads
  pub completed : q.completed ≡ p.completed
  pub resumed : q.resumed ≡ p.resumed
  pub cq : q.cq ≡ p.cq
  pub phase : q.phase ≡ p.phase

pub Kept-in_order :
    {p q : Pool}
    → Kept p q
    → p.completed ≡ p.resumed ++ (batch p.phase ++ reverse_batch [] p.cq)
    → q.completed ≡ q.resumed ++ (batch q.phase ++ reverse_batch [] q.cq)
Kept-in_order k o =
    k.completed
    ∙ o
    ∙ ap₂ ◌++◌ (sym k.resumed)
        (ap₂ ◌++◌ (ap batch (sym k.phase)) (ap (reverse_batch []) (sym k.cq)))

unfoldable pub same_task : ℕ → ℕ → ℕ
same_task a b = if b == a then 1 else 0

module _ (a b : ℕ) (p : Pool) (room : 0 < p.sq_capacity) where
  pub push-Kept : Kept p (push_to_sq b p).0
  push-Kept = by_slot (p.sq (p.sq_tail % p.sq_capacity))
    where
      by_slot : (o : Option ℕ) → Kept p (push_at o b p).0
      by_slot none = record {
        submitted = refl;
        sq_capacity = refl;
        threads = refl;
        completed = refl;
        resumed = refl;
        cq = refl;
        phase = refl;
      }
      by_slot (some x) = record {
        submitted = refl;
        sq_capacity = refl;
        threads = refl;
        completed = refl;
        resumed = refl;
        cq = refl;
        phase = refl;
      }

  pub push-backoff : (push_to_sq b p).0.backoff ≡ p.backoff
  push-backoff = by_slot (p.sq (p.sq_tail % p.sq_capacity))
    where
      by_slot : (o : Option ℕ) → (push_at o b p).0.backoff ≡ p.backoff
      by_slot none = refl
      by_slot (some x) = refl

  pub push-present :
      present a (push_to_sq b p).0 ≡ present a p + (if (push_to_sq b p).1 then same_task a b else 0)
  unfolding same_task
  push-present = elim (Option-cases (p.sq (p.sq_tail % p.sq_capacity))) [
    | inl e ↦ rw e (
        omega (
          arith,
          total-update (in_slot a) p.sq_capacity (p.sq_tail % p.sq_capacity) p.sq (some b)
              (mod-lt p.sq_tail room),
          ap (in_slot a) e,
        ))
    | inr e ↦ rw e.1 (omega arith)
  ]

pub count-snoc : (a b : ℕ) (xs : List ℕ) → count a (xs ++ b ∷ []) ≡ count a xs + same_task a b
unfolding count same_task
count-snoc a b xs = omega (arith, count-append a xs (b ∷ []))

pub count-cons : (a b : ℕ) (xs : List ℕ) → count a (b ∷ xs) ≡ same_task a b + count a xs
unfolding count same_task
count-cons a b xs = refl
