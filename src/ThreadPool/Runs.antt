-- ===== src/ThreadPool/Runs.antt =====
-- Every interleaving of the threads of a thread pool (corral/ThreadPool.h) keeps its tasks.
use corral.Base.{ℕ, zero, suc, ◌^◌, ◌≤◌, ◌<◌, ◌≡◌, refl, List, [], ◌∷◌, none, arith}
use corral.ThreadPool.{
  idle, Pool, new, capacity, claim_by, pop_by, complete_by, post_by, reverse_batch, Event, submits,
  claims, pops, completes, posts, ticks, drains, happens, run,
}
use corral.ThreadPool.Slots.{capacity_lem}
use corral.ThreadPool.Places.{count, in_slot, with_worker, total, Inv}
use corral.ThreadPool.Moves.{
  submit_in-Inv, drain_step-Inv, begin_tick-Inv, claims-Inv, posts-Inv, pops-Inv, completes-Inv,
  by_worker-Inv,
}

happens-Inv : (e : Event) (p : Pool) → Inv p → Inv (happens e p)
unfolding happens
happens-Inv (submits a) p v = submit_in-Inv p v a
happens-Inv (claims w) p v = by_worker-Inv p v claim_by (claims-Inv p v) w
happens-Inv (pops w) p v = by_worker-Inv p v pop_by (pops-Inv p v) w
happens-Inv (completes w) p v = by_worker-Inv p v complete_by (completes-Inv p v) w
happens-Inv (posts w) p v = by_worker-Inv p v post_by (posts-Inv p v) w
happens-Inv ticks p v = begin_tick-Inv p v
happens-Inv drains p v = drain_step-Inv p v

run-Inv : (es : List Event) (p : Pool) → Inv p → Inv (run es p)
unfolding run
run-Inv [] p v = v
run-Inv (e ∷ es) p v = run-Inv es (happens e p) (happens-Inv e p v)

total-zero : {A : Type 0} (f : A → ℕ) (n : ℕ) (v : A) → f v ≡ 0 → total f n (λ i. v) ≡ 0
unfolding total
total-zero f zero v h = refl
total-zero f (suc n) v h = omega (arith, h, total-zero f n v h)

new-Inv : (n : ℕ) → 0 < n → n ≤ 2 ^ 22 → Inv (new n)
unfolding count reverse_batch
new-Inv n h l = record {
  room = let (k, small, e, room) = capacity_lem n h l in omega (arith, room);
  conserved = λ a. omega (
    arith,
    total-zero (in_slot a) (capacity n) none refl,
    total-zero (with_worker a) n idle refl,
  );
  in_order = refl;
}

-- In a pool of 1 to 2 ^ 22 threads, however the main thread and the workers interleave, each task is
-- in the backoff queue, in a slot, with a worker or completed as often as it was submitted; and what
-- has been resumed, then the rest of the batch being drained, then the completion queue from its
-- oldest task are what was completed, in this order. The submission queue has a slot.
pub run-new : (n : ℕ) (es : List Event) → 0 < n → n ≤ 2 ^ 22 → Inv (run es (new n))
run-new n es h l = run-Inv es (new n) (new-Inv n h l)
