-- ===== src/Mux/Resumption.antt =====
-- When a combiner resumes its parent (corral/detail/wait.h).
use corral.Base.{
  ℕ, subst, sym, ◌+◌, ◌<◌, ◌≡◌, refl, ◌∙◌, ◌⊎◌, inl, inr, Bool, true, false, not, ◌||◌, some,
  if◌then◌else◌, ◌==◌, get_elem?, Bool-cases, arith,
}
use corral.Mux.{
  State, not_started, cancellation_pending, running, cancelling, cancelled, succeeded, failed,
  Awaiter, Child, Mux, size, set_state, report_result, child_invoke, at_child, invoke, invoke_all,
  complete, kick_off, suspend_from,
}
use corral.Mux.Children.{is_done, done, done-lt-length, length-set, done-set, get_elem?-set}
use corral.Mux.Count.{invoke-Good}

-- Between two events the count is that of the children that are done, and the parent has been resumed
-- once if all are, and else not at all.
pub record Inv (m : Mux) : Type 0 where
  pub counted : done m.children ≡ m.count
  pub resumption : m.resumed ≡ (if done m.children == size m then 1 else 0)
  pub sound : m.broken ≡ false

-- After an event of a child that is not done: the invariant, and that child done too.
pub record Done (m n : Mux) : Type 0 where
  pub inv : Inv n
  pub same_size : size n ≡ size m
  pub grown : done m.children < done n.children

module _ (i : ℕ) (m : Mux) (v : Inv m) {c : Child} (here : get_elem? m.children i ≡ some c)
    (open_ : is_done c.state ≡ false) where
  last_state-Done :
      (e : Bool) (s : State) → is_done s ≡ true → Done m (invoke_all e (set_state i s m))
  last_state-Done e s last =
      let one = done-set i s m.children here open_ in
      let same = length-set i s m.children in
      let few = done-lt-length i m.children here open_ in
      let g =
        invoke-Good (size m + 1) 0 e (set_state i s m) (ground (arith, one, v.counted))
          (ground (arith, one, same)) in
      subst (λ k. Done m (invoke (k + 1) e (set_state i s m))) (sym same)
        (record {
          inv = record {
            counted = omega (arith, g.goes.counted);
            resumption = ground (arith, g.resumption, v.resumption, few);
            sound = g.goes.sound ∙ v.sound;
          };
          same_size = g.goes.same_size ∙ same;
          grown = ground (arith, g.goes.grown, one);
        })

  report-Done : (a : Awaiter) → Done m (report_result invoke_all i a m)
  unfolding report_result
  report-Done a = elim (Bool-cases a.fails) [
    | inl bad ↦ rw bad (last_state-Done true failed refl)
    | inr good ↦ rw good (last_state-Done false succeeded refl)
  ]

  child_invoke-Done :
      (a : Awaiter) (s : State)
      → (s ≡ running) ⊎ (s ≡ cancelling)
      → Done m (child_invoke invoke_all i a s m)
  unfolding child_invoke
  child_invoke-Done a s (inl e) = rw e (report-Done a)
  child_invoke-Done a s (inr e) = rw e (elim (Bool-cases a.await_must_resume) [
    | inl must ↦ rw must (report-Done a)
    | inr may ↦ rw may (last_state-Done false cancelled refl)
  ])

-- Whenever a child that is running, or being cancelled, completes, whatever that makes of the others:
-- the count stays that of the children that are done, one more of them is, no unreachable code is
-- reached, and the parent has been resumed once if all are done, and else not at all.
pub complete-Done :
    (i : ℕ) (m : Mux) {c : Child}
    → Inv m
    → get_elem? m.children i ≡ some c
    → (c.state ≡ running) ⊎ (c.state ≡ cancelling)
    → Done m (complete i m)
unfolding complete
complete-Done i m {c} v here live =
    rw (here, at_child) (child_invoke-Done i m v here (ground (arith, live)) c.awaiter c.state live)

mark-Inv :
    (i : ℕ) (s : State) (m : Mux) {c : Child}
    → Inv m
    → get_elem? m.children i ≡ some c
    → is_done c.state ≡ false
    → is_done s ≡ false
    → Inv (set_state i s m)
mark-Inv i s m v here open_ still =
    let one = done-set i s m.children here open_ in
    let same = length-set i s m.children in
    record {
      counted = ground (arith, one, v.counted);
      resumption = ground (arith, one, same, v.resumption);
      sound = v.sound;
    }

start-Inv :
    (i : ℕ) (a : Awaiter) (t : State) (m : Mux)
    → Inv m
    → get_elem? m.children i ≡ some (record { state = t; awaiter = a })
    → (t ≡ running) ⊎ (t ≡ cancelling)
    → Inv (if a.await_ready || not a.suspends then child_invoke invoke_all i a t m else m)
start-Inv i a t m v here live = elim (Bool-cases (a.await_ready || not a.suspends)) [
  | inl now ↦ rw now (child_invoke-Done i m v here (ground (arith, live)) a t live).inv
  | inr later ↦ rw later v
]

-- Starting a child that has not been started keeps the invariant, whether or not it completes at once.
pub suspend_from-Inv :
    (i : ℕ) (a : Awaiter) (s : State) (m : Mux)
    → Inv m
    → get_elem? m.children i ≡ some (record { state = s; awaiter = a })
    → (s ≡ not_started) ⊎ (s ≡ cancellation_pending)
    → Inv (suspend_from i a s m)
unfolding suspend_from kick_off
suspend_from-Inv i a s m v here (inl e) =
    let at : get_elem? m.children i ≡ some (record { state = not_started; awaiter = a }) =
      rw e at here in
    rw e (
      start-Inv i a running (set_state i running m) (mark-Inv i running m v at refl refl)
        (get_elem?-set i running m.children at) (inl refl))
suspend_from-Inv i a s m v here (inr e) =
    let at : get_elem? m.children i ≡ some (record { state = cancellation_pending; awaiter = a }) =
      rw e at here in
    rw e (
      start-Inv i a cancelling (set_state i cancelling m) (mark-Inv i cancelling m v at refl refl)
        (get_elem?-set i cancelling m.children at) (inr refl))
