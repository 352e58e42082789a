-- ===== src/Mux/Outside.antt =====
-- The cancellation of a combiner by its parent (corral/detail/wait.h).
use corral.Base.{
  ℕ, zero, suc, ◌∙◌, subst, sym, Option, ==_iff, ◌+◌, ◌≤◌, ◌<◌, ◌≡◌, refl, ◌⊎◌, inl, inr, Bool,
  true, false, ◌&&◌, none, some, ◌==◌, get_elem?, get_elem?-within, Bool-cases, Option-cases, arith,
}
use corral.Mux.{
  State, not_started, running, cancelled, Awaiter, Child, Mux, size, set_state, cancelled_at,
  cancel_from, cancel, at_child, invoke_all, cancel_answer, cancel_all, await_cancel,
}
use corral.Mux.Children.{done, done-set, length-set, get_elem?-set, cancelled_at-here}
use corral.Mux.Cancels.{Counted, Cancels, Good, cancel-Cancels, stay-Cancels, join-Cancels}
use corral.Mux.Count.{invoke-Good}
use corral.Mux.Resumption.{Inv}

invoke_all-Good : (f : ℕ) → Good 0 f invoke_all
invoke_all-Good f e m b fuel = invoke-Good (size m + 1) 0 e m b (omega arith)

-- A `cancel` that returns true leaves its child cancelled.
cancel_answer-right :
    (i : ℕ) (m : Mux) (a : Awaiter) (s : State)
    → get_elem? m.children i ≡ some (record { state = s; awaiter = a })
    → Counted 0 m
    → cancel_answer a s (cancelled_at i (cancel_from invoke_all i a s m).children) ≡ true
    → cancelled_at i (cancel_from invoke_all i a s m).children ≡ true
unfolding cancel_from
cancel_answer-right i m a not_started here b told = rw told (
    (invoke_all-Good (size m + 1) false (set_state i cancelled m)
        (ground (arith, b, done-set i cancelled m.children here refl))
        (omega (arith, length-set i cancelled m.children))).goes.lasting
      i
      (cancelled_at-here i (set_state i cancelled m).children
        (get_elem?-set i cancelled m.children here) refl))
cancel_answer-right i m a running here b told = told
cancel_answer-right i m a cancelled here b told = cancelled_at-here i m.children here refl
cancel_answer-right i m a _ here b told = ground arith

record Answers (i k : ℕ) (m : Mux) (r : Bool × Mux) : Type 0 where
  pub cancels : Cancels 0 m r.1
  pub honest : r.0 ≡ true → (j : ℕ) → i ≤ j → j < i + k → cancelled_at j r.1.children ≡ true

step-Answers :
    (i k : ℕ) {m n : Mux} (answer : Bool) (r : Bool × Mux)
    → Cancels 0 m n
    → (answer ≡ true → cancelled_at i n.children ≡ true)
    → Counted 0 m
    → Answers (i + 1) k n r
    → Answers i (suc k) m (answer && r.0, r.1)
step-Answers i k {m} {n} answer r first own b rest = record {
  cancels = join-Cancels 0 (size m) invoke_all (invoke_all-Good (size m)) first rest.cancels;
  honest = λ told j above below. elim (Bool-cases (j == i)) [
    | inl e ↦ rw ((==_iff j i).0 e) (rest.cancels.goes.lasting i (own (ground (arith, told))))
    | inr e ↦ rest.honest (ground (arith, told)) j (ground (arith, e, above)) (omega (arith, below))
  ];
}

told_right :
    (i : ℕ) (m : Mux) (c : Child)
    → get_elem? m.children i ≡ some c
    → Counted 0 m
    → cancel_answer c.awaiter c.state (cancelled_at i (cancel invoke_all i m).children) ≡ true
    → cancelled_at i (cancel invoke_all i m).children ≡ true
unfolding cancel
told_right i m c here b = rw (here, at_child) (cancel_answer-right i m c.awaiter c.state here b)

-- `cancel_all` of one child more, given what stands at its index.
abbrev all_answers : ℕ → ℕ → Option Child → Mux → Bool × Mux
all_answers i k o m =
    let one : Bool = elim o [
      | none ↦ true
      | some c ↦ cancel_answer c.awaiter c.state (cancelled_at i (cancel invoke_all i m).children)
    ] in
    let (others, end) = cancel_all invoke_all (i + 1) k (cancel invoke_all i m) in
    (one && others, end)

cancel_all-Answers :
    (i k : ℕ) (m : Mux) → Counted 0 m → i + k ≤ size m → Answers i k m (cancel_all invoke_all i k m)
unfolding cancel_all
cancel_all-Answers i zero m b within = record {
  cancels = stay-Cancels 0 (size m) invoke_all (invoke_all-Good (size m)) m b;
  honest = λ told j above below. ground (arith, above, below);
}
cancel_all-Answers i (suc k) m b within = elim (Option-cases (get_elem? m.children i)) [
  | inl out ↦ absurd (ground (arith, get_elem?-within m.children i (omega (arith, within)), out))
  | inr (c, here) ↦
      (let first =
          cancel-Cancels 0 (size m) invoke_all (invoke_all-Good (size m)) i m b (omega arith) in
        subst (λ o. Answers i (suc k) m (all_answers i k o m)) (sym here)
          (step-Answers i k
            (cancel_answer c.awaiter c.state (cancelled_at i (cancel invoke_all i m).children))
            (cancel_all invoke_all (i + 1) k (cancel invoke_all i m)) first
            (told_right i m c here b) b
            (cancel_all-Answers (i + 1) k (cancel invoke_all i m) first.goes.counted
              (omega (arith, within, first.goes.same_size)))))
]

-- A combiner whose parent still waits, when the parent cancels it: either the answer is that all is
-- cancelled, then every child is and the parent is not resumed, or it is not, then the parent is
-- resumed once if all children are done and else not at all, with the count still that of the children
-- that are done.
pub await_cancel-Inv :
    (m : Mux)
    → Inv m
    → done m.children < size m
    → let (answer, n) = await_cancel m in
      ((answer ≡ true)
        × (n.resumed ≡ 0)
        × ((j : ℕ) → j < size m → cancelled_at j n.children ≡ true))
      ⊎ ((answer ≡ false) × Inv n)
unfolding await_cancel
await_cancel-Inv m v waits =
    let a = cancel_all-Answers 0 (size m) m (omega (arith, v.counted)) (omega arith) in
    let r = cancel_all invoke_all 0 (size m) m in
    let asleep : m.resumed ≡ 0 = ground (arith, v.resumption, waits) in
    elim (Bool-cases r.0) [
      | inl all ↦
          rw all
            (inl (refl, asleep, λ j below. a.honest all j (omega arith) (omega (arith, below))))
      | inr some_left ↦ rw some_left (elim (Bool-cases (r.1.count == size r.1)) [
        | inl last ↦ rw last (
            inr (
              refl,
              record {
                counted = omega (arith, a.cancels.goes.counted);
                resumption = ground (arith, a.cancels.goes.counted, asleep, last);
                sound = a.cancels.goes.sound ∙ v.sound;
              },
            ))
        | inr more ↦ rw more (
            inr (
              refl,
              record {
                counted = omega (arith, a.cancels.goes.counted);
                resumption = ground (arith, a.cancels.goes.counted, asleep, more);
                sound = a.cancels.goes.sound ∙ v.sound;
              },
            ))
      ])
    ]
