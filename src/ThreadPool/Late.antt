-- ===== src/ThreadPool/Late.antt =====
-- A tick of a thread pool (corral/ThreadPool.h) that comes after the last task has been resumed.
use corral.Base.{ℕ, ◌+◌, ◌<◌, ◌≡◌, refl, sym, subst, true, lt→ltb, [], ◌∷◌, ◌++◌, ◌==◌, arith}
use corral.ThreadPool.{running, draining, Pool, completes, posts, drains, run, reverse_batch}

-- What the four steps come to.
abbrev pub TickLeft : ℕ → ℕ → Pool → Type 0
TickLeft w a p =
    let q = run (completes w ∷ posts w ∷ drains ∷ drains ∷ []) p in
    (q.resumed ≡ p.resumed ++ a ∷ [])
    × (q.cq ≡ [])
    × (q.phase ≡ draining [])
    × (q.posts ≡ p.posts + 1)

between_batches :
    (p : Pool) (w a : ℕ)
    → w < p.threads
    → p.workers w ≡ running a
    → TickLeft w a (record p { cq = []; phase = draining [] })
unfolding run reverse_batch
between_batches p w a h e =
    let self : (w == w) ≡ true = ground arith in
    rw (lt→ltb w p.threads h, e, self, lt→ltb w p.threads h) (refl, refl, refl, refl)

-- A worker completes a task while the main thread, in a tick, is between two batches. The task is
-- resumed by this tick, and the tick that the worker has posted for it is still to come, although the
-- completion queue is empty and no task is left in the batch.
pub late_tick :
    (p : Pool) (w a : ℕ)
    → w < p.threads
    → p.workers w ≡ running a
    → p.cq ≡ []
    → p.phase ≡ draining []
    → TickLeft w a p
late_tick p w a h e f g =
    subst (TickLeft w a) (λ i. record p { cq = sym f i; phase = sym g i })
      (between_batches p w a h e)
