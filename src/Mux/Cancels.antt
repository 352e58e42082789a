-- ===== src/Mux/Cancels.antt =====
-- The cancellation of a combiner's children (corral/detail/wait.h), given what the calls within do: the
-- count against the children that are done, and who is resumed.
use corral.Base.{
  ℕ, zero, suc, ◌+◌, ◌≤◌, ◌<◌, ◌≡◌, refl, ◌∙◌, inl, inr, Bool, true, false, not, ◌&&◌, some,
  if◌then◌else◌, ◌==◌, get_elem?, Bool-cases, Option-cases, arith,
}
use corral.Mux.{
  State, not_started, cancellation_pending, running, cancelling, cancelled, succeeded, failed,
  OnCancel, completes, waits, resumes, Awaiter, Child, Mux, size, set_state, report_result,
  child_invoke, cancel_running, cancel_from, cancel, at_child, internal_cancel, cancelled_at,
}
use corral.Mux.Children.{
  is_done, done, done-le-length, done-lt-length, length-set, done-set, get_elem?-set,
  cancelled_at-set,
}

-- `d` of the children that are done are not yet in the count.
abbrev pub Counted : ℕ → Mux → Type 0
Counted d m = done m.children ≡ m.count + d

-- What a call may do between two states whose count is short by `d`: it keeps the children's number,
-- finishes some more, and resumes the parent exactly if all are counted.
pub record Goes (d : ℕ) (m n : Mux) : Type 0 where
  pub counted : Counted d n
  pub same_size : size n ≡ size m
  pub same_ready : n.min_ready ≡ m.min_ready
  pub grown : done m.children ≤ done n.children
  pub sound : n.broken ≡ m.broken
  pub lasting : (i : ℕ) → cancelled_at i m.children ≡ true → cancelled_at i n.children ≡ true

pub record Invokes (d : ℕ) (m n : Mux) : Type 0 where
  pub goes : Goes d m n
  pub resumption : n.resumed ≡ m.resumed + (if d == 0 && done n.children == size n then 1 else 0)

pub record Cancels (d : ℕ) (m n : Mux) : Type 0 where
  pub goes : Goes d m n
  pub resumption :
      n.resumed
      ≡ m.resumed
        + (if d == 0 && done n.children == size n && not (done m.children == size m) then 1 else 0)

-- What is needed of the calls within: they count a child that has just been done.
abbrev pub Good : ℕ → ℕ → (Bool → Mux → Mux) → Type 0
Good d f inv =
    (e : Bool) (m : Mux) → Counted (d + 1) m → size m < done m.children + f → Invokes d m (inv e m)

module _ (d f : ℕ) (inv : Bool → Mux → Mux) (good : Good d f inv) where
  -- A child that is not done gets its last state, and the mux is told.
  finish-Cancels :
      (e : Bool) (i : ℕ) (s : State) (m : Mux) {c : Child}
      → get_elem? m.children i ≡ some c
      → is_done c.state ≡ false
      → is_done s ≡ true
      → Counted d m
      → size m ≤ done m.children + f
      → Cancels d m (inv e (set_state i s m))
  finish-Cancels e i s m here open_ last b fuel =
      let one = done-set i s m.children here open_ in
      let same = length-set i s m.children in
      let few = done-lt-length i m.children here open_ in
      let g = good e (set_state i s m) (ground (arith, one, b)) (ground (arith, one, same, fuel)) in
      record {
        goes = record {
          counted = g.goes.counted;
          same_size = g.goes.same_size ∙ same;
          same_ready = g.goes.same_ready;
          grown = ground (arith, g.goes.grown, one);
          sound = g.goes.sound;
          lasting = λ j k. g.goes.lasting j (cancelled_at-set i j s m.children here open_ k);
        };
        resumption = ground (arith, g.resumption, few, same, g.goes.same_size);
      }

  pub stay-Cancels : (m : Mux) → Counted d m → Cancels d m m
  stay-Cancels m b = record {
    goes = record {
      counted = b;
      same_size = refl;
      same_ready = refl;
      grown = omega arith;
      sound = refl;
      lasting = λ j k. k;
    };
    resumption = ground arith;
  }

  -- A child that is not done gets another state in which it is not done.
  mark-Cancels :
      (i : ℕ) (s : State) (m : Mux) {c : Child}
      → get_elem? m.children i ≡ some c
      → is_done c.state ≡ false
      → is_done s ≡ false
      → Counted d m
      → Cancels d m (set_state i s m)
  mark-Cancels i s m here open_ still b =
      let same_done = done-set i s m.children here open_ in
      record {
        goes = record {
          counted = ground (arith, same_done, b);
          same_size = length-set i s m.children;
          same_ready = refl;
          grown = ground (arith, same_done);
          sound = refl;
          lasting = λ j k. cancelled_at-set i j s m.children here open_ k;
        };
        resumption = ground (arith, same_done, length-set i s m.children);
      }

  pub join-Cancels : {l m n : Mux} → Cancels d l m → Cancels d m n → Cancels d l n
  join-Cancels {l} {m} {n} a b = record {
    goes = record {
      counted = b.goes.counted;
      same_size = b.goes.same_size ∙ a.goes.same_size;
      same_ready = b.goes.same_ready ∙ a.goes.same_ready;
      grown = omega (arith, a.goes.grown, b.goes.grown);
      sound = b.goes.sound ∙ a.goes.sound;
      lasting = λ j k. b.goes.lasting j (a.goes.lasting j k);
    };
    resumption = ground (
      arith,
      a.resumption,
      b.resumption,
      a.goes.same_size,
      b.goes.same_size,
      a.goes.grown,
      b.goes.grown,
      done-le-length n.children,
    );
  }

  module _ (i : ℕ) (m : Mux) (b : Counted d m) (fuel : size m ≤ done m.children + f) where
    report-Cancels :
        (a : Awaiter) {c : Child}
        → get_elem? m.children i ≡ some c
        → is_done c.state ≡ false
        → Cancels d m (report_result inv i a m)
    unfolding report_result
    report-Cancels a here open_ = elim (Bool-cases a.fails) [
      | inl bad ↦ rw bad (finish-Cancels true i failed m here open_ refl b fuel)
      | inr good ↦ rw good (finish-Cancels false i succeeded m here open_ refl b fuel)
    ]

    resumed-Cancels :
        (a : Awaiter) {c : Child}
        → get_elem? m.children i ≡ some c
        → is_done c.state ≡ false
        → Cancels d m (child_invoke inv i a cancelling m)
    unfolding child_invoke
    resumed-Cancels a here open_ = elim (Bool-cases a.await_must_resume) [
      | inl must ↦ rw must (report-Cancels a here open_)
      | inr may ↦ rw may (finish-Cancels false i cancelled m here open_ refl b fuel)
    ]

    answer-Cancels :
        (a : Awaiter) (o : OnCancel) {c : Child}
        → get_elem? m.children i ≡ some c
        → is_done c.state ≡ false
        → Cancels d m (cancel_running inv i a o m)
    answer-Cancels a completes here open_ =
        finish-Cancels false i cancelled m here open_ refl b fuel
    answer-Cancels a waits here open_ = stay-Cancels m b
    answer-Cancels a resumes here open_ = resumed-Cancels a here open_

  cancel_from-Cancels :
      (i : ℕ) (m : Mux) (a : Awaiter) (s : State)
      → get_elem? m.children i ≡ some (record { state = s; awaiter = a })
      → Counted d m
      → size m ≤ done m.children + f
      → Cancels d m (cancel_from inv i a s m)
  unfolding cancel_from
  cancel_from-Cancels i m a not_started here b fuel = elim (Bool-cases a.await_early_cancel) [
    | inl early ↦ rw early (finish-Cancels false i cancelled m here refl refl b fuel)
    | inr late ↦ rw late (mark-Cancels i cancellation_pending m here refl refl b)
  ]
  cancel_from-Cancels i m a running here b fuel =
      let marked = mark-Cancels i cancelling m here refl refl b in
      join-Cancels marked (
        answer-Cancels i (set_state i cancelling m) marked.goes.counted
          (omega (arith, marked.goes.same_size, marked.goes.grown, fuel)) a a.await_cancel
          (get_elem?-set i cancelling m.children here) refl)
  cancel_from-Cancels i m a _ here b fuel = stay-Cancels m b

  pub cancel-Cancels :
      (i : ℕ) (m : Mux) → Counted d m → size m ≤ done m.children + f → Cancels d m (cancel inv i m)
  unfolding cancel
  cancel-Cancels i m b fuel = elim (Option-cases (get_elem? m.children i)) [
    | inl out ↦ rw (out, at_child) (stay-Cancels m b)
    | inr (c, here) ↦ rw (here, at_child) (cancel_from-Cancels i m c.awaiter c.state here b fuel)
  ]

  -- Cancelling the children from `i` on.
  pub internal_cancel-Cancels :
      (i k : ℕ) (m : Mux)
      → Counted d m
      → size m ≤ done m.children + f
      → Cancels d m (internal_cancel inv i k m)
  unfolding internal_cancel
  internal_cancel-Cancels i zero m b fuel = stay-Cancels m b
  internal_cancel-Cancels i (suc k) m b fuel =
      let one = cancel-Cancels i m b fuel in
      join-Cancels one (
        internal_cancel-Cancels (i + 1) k (cancel inv i m) one.goes.counted
          (omega (arith, one.goes.same_size, one.goes.grown, fuel)))
