-- ===== src/ThreadPool.antt =====
-- corral/ThreadPool.h: the submission queue, the backoff queue and the completion queue of a thread
-- pool, as its main thread and its workers use them, and the token by which a task learns that it is
-- cancelled. Each access to an atomic variable is a step of its own, and the steps of the threads come
-- in any order. A task is a number, its address, and runs to completion; a worker that finds its slot
-- empty tries again, and what spares it the trying (the spinning and the flag `dequeuing`) is left
-- out, as are the exit requests of the destructor. The queues linked by `next_` are lists.
pub mod Token
pub mod Slots
pub mod Places
pub mod Moves
pub mod Runs
pub mod Late
mod Tests
use corral.Base.{
  ℕ, zero, suc, ◌+◌, ◌-◌, ◌*◌, ◌%◌, ◌^◌, Bool, true, false, ◌==◌, ltb, leb, List, [], ◌∷◌, ◌++◌,
  Option, none, some, update, if◌then◌else◌,
}

abbrev pub stride : ℕ
stride = 7

-- The exponent of `std::bit_ceil`, from one that may be too small; the fuel is the width.
unfoldable pub ceil_exponent : ℕ → ℕ → ℕ → ℕ
ceil_exponent zero n k = k
ceil_exponent (suc fuel) n k =
    let rest = ceil_exponent fuel n (k + 1) in if leb n (2 ^ k) then k else rest

abbrev pub bit_ceil : ℕ → ℕ
bit_ceil n = 2 ^ ceil_exponent 32 n 0

-- `sqCapacity`, computed in 32 bits.
unfoldable pub capacity : ℕ → ℕ
unfolding ceil_exponent
capacity thread_count = bit_ceil thread_count * 512 % 2 ^ 32

-- `sqHead` and `sqTail` are of 64 bits.
abbrev pub advance : ℕ → ℕ
advance i = (i + stride) % 2 ^ 64

-- A worker seeks a task from the slot that it has claimed, runs one, or has put it in an empty
-- completion queue and is about to post a tick.
pub data Worker : Type 0 where
  idle posting : Worker
  seeking running : ℕ → Worker

-- The main thread drains the completion queue in `tick`, with the rest of the batch it has taken, and
-- then it is in the loop of `submitBackoffSQ`; its task `t` is the first of `backoff`.
pub data Phase : Type 0 where
  outside submitting : Phase
  draining : List ℕ → Phase

-- `cq` has the newest task first. `posts` counts the ticks that were posted and have not begun;
-- `submitted`, `completed` and `resumed` are what has happened to tasks, in order.
pub record Pool : Type 0 where
  pub threads : ℕ
  pub sq_capacity : ℕ
  pub sq : ℕ → Option ℕ
  pub sq_head : ℕ
  pub sq_tail : ℕ
  pub workers : ℕ → Worker
  pub backoff : List ℕ
  pub cq : List ℕ
  pub posts : ℕ
  pub phase : Phase
  pub submitted : List ℕ
  pub completed : List ℕ
  pub resumed : List ℕ

-- The constructor.
abbrev pub new : ℕ → Pool
new thread_count = record {
  threads = thread_count;
  sq_capacity = capacity thread_count;
  sq = λ i. none;
  sq_head = 0;
  sq_tail = 0;
  workers = λ w. idle;
  backoff = [];
  cq = [];
  posts = 0;
  phase = outside;
  submitted = [];
  completed = [];
  resumed = [];
}

-- `pushToSQ`, with what its slot holds.
abbrev pub push_at : Option ℕ → ℕ → Pool → Pool × Bool
push_at (some b) a p = (p, false)
push_at none a p = (
  record p { sq = update p.sq (p.sq_tail % p.sq_capacity) (some a); sq_tail = advance p.sq_tail },
  true,
)

abbrev pub push_to_sq : ℕ → Pool → Pool × Bool
push_to_sq a p = push_at (p.sq (p.sq_tail % p.sq_capacity)) a p

-- `TaskImpl::await_suspend`, with `pushToBackoffSQ`.
unfoldable pub submit : ℕ → Pool → Pool
submit a p =
    let (q, done) = push_to_sq a (record p { submitted = p.submitted ++ a ∷ [] }) in
    if done then q else record q { backoff = q.backoff ++ a ∷ [] }

-- `submitBackoffSQ` resumes no task, so the main thread submits none within it: such an event is not possible.
abbrev pub submit_in : Phase → ℕ → Pool → Pool
submit_in submitting a p = p
submit_in _ a p = submit a p

-- A round of the loop of `submitBackoffSQ`, which ends when a push fails or no task is left.
unfoldable pub submit_next : List ℕ → Pool → Pool
submit_next [] p = record p { phase = outside }
submit_next (a ∷ bs) p =
    let (q, done) = push_to_sq a p in
    if done then record q { backoff = bs } else record q { phase = outside }

abbrev pub set_worker : ℕ → Worker → Pool → Pool
set_worker w v p = record p { workers = update p.workers w v }

-- `popFromSQ` claims a slot.
abbrev pub claim_by : Worker → ℕ → Pool → Pool
claim_by idle w p = set_worker w (seeking p.sq_head) (record p { sq_head = advance p.sq_head })
claim_by _ w p = p

-- The exchange of `popFromSQ`, with what the slot holds.
abbrev pub take_from : Option ℕ → ℕ → ℕ → Pool → Pool
take_from none slot w p = p
take_from (some a) slot w p = set_worker w (running a) (record p { sq = update p.sq slot none })

abbrev pub pop_by : Worker → ℕ → Pool → Pool
pop_by (seeking head) w p = take_from (p.sq (head % p.sq_capacity)) (head % p.sq_capacity) w p
pop_by _ w p = p

abbrev pub is_nil : List ℕ → Bool
is_nil [] = true
is_nil (x ∷ xs) = false

-- The exchange of `pushToCQ` that succeeds.
abbrev pub complete_by : Worker → ℕ → Pool → Pool
complete_by (running a) w p =
    set_worker w (if is_nil p.cq then posting else idle)
      (record p { cq = a ∷ p.cq; completed = p.completed ++ a ∷ [] })
complete_by _ w p = p

abbrev pub post_by : Worker → ℕ → Pool → Pool
post_by posting w p = set_worker w idle (record p { posts = p.posts + 1 })
post_by _ w p = p

-- The loop that reverses the batch: `prev` and `curr`.
unfoldable pub reverse_batch : List ℕ → List ℕ → List ℕ
reverse_batch prev [] = prev
reverse_batch prev (a ∷ curr) = reverse_batch (a ∷ prev) curr

-- `tick` begins.
abbrev pub begin_tick : Phase → Pool → Pool
begin_tick outside p =
    if ltb 0 p.posts then record p { posts = p.posts - 1; phase = draining [] } else p
begin_tick _ p = p

-- A step of `tick`: in `drainCQ` the next task of the batch is resumed; after the last, another batch is
-- taken; if there is none, a round of `submitBackoffSQ` follows for each task that still fits.
unfoldable pub drain_step : Phase → List ℕ → Pool → Pool
unfolding reverse_batch submit_next
drain_step outside cq p = p
drain_step submitting cq p = submit_next p.backoff p
drain_step (draining (a ∷ bs)) cq p = record p {
  resumed = p.resumed ++ a ∷ [];
  phase = draining bs;
}
drain_step (draining []) (a ∷ bs) p = record p {
  cq = [];
  phase = draining (reverse_batch [] (a ∷ bs));
}
drain_step (draining []) [] p = record p { phase = submitting }

-- What happens: a task is submitted by the main thread, a worker goes on, or the main thread does.
pub data Event : Type 0 where
  submits claims pops completes posts : ℕ → Event
  ticks drains : Event

abbrev pub by_worker : (Worker → ℕ → Pool → Pool) → ℕ → Pool → Pool
by_worker f w p = if ltb w p.threads then f (p.workers w) w p else p

-- An event that is not possible changes nothing.
unfoldable pub happens : Event → Pool → Pool
unfolding submit drain_step
happens (submits a) p = submit_in p.phase a p
happens (claims w) p = by_worker claim_by w p
happens (pops w) p = by_worker pop_by w p
happens (completes w) p = by_worker complete_by w p
happens (posts w) p = by_worker post_by w p
happens ticks p = begin_tick p.phase p
happens drains p = drain_step p.phase p.cq p

unfoldable pub run : List Event → Pool → Pool
unfolding happens
run [] p = p
run (e ∷ es) p = run es (happens e p)
