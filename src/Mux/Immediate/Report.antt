-- ===== src/Mux/Immediate/Report.antt =====
-- `reportImmediateResult` of one child of a combiner (corral/detail/wait.h).
use corral.Base.{
  ℕ, ◌≡◌, refl, Bool, true, false, not, ◌||◌, some, if◌then◌else◌, ◌==◌, get_elem?, inl, inr,
  Bool-cases, arith,
}
use corral.Mux.{
  State, not_started, cancellation_pending, cancelled, ready, succeeded, failed, Awaiter, Child,
  Mux, set, set_state, at_child, invoke_all, report_result,
}
use corral.Mux.Children.{is_done, set-set, get_elem?-set}
use corral.Mux.Immediate.{report_from, report}
use corral.Mux.Immediate.Evolve.{all_fine, Evolves-get, fine-get, has_result}
use corral.Mux.Immediate.Settle.{
  Settles, waits_for, join-Settles, set-Settles, mark-Settles, still_waits, invoke_all-Settles,
  invoke_none-Settles,
}

module _ (every : Bool) (except : ℕ → Bool) where
  -- A call that leaves a child in a state of a kind.
  abbrev pub Reports : ℕ → (State → Bool) → Mux → Mux → Type 0
  Reports i p m n =
      Settles every except m n
      × (d : Child) × (get_elem? n.children i ≡ some d)
      × (p d.state ≡ true)

  abbrev last_state : Awaiter → State
  last_state a = if a.fails then failed else succeeded

  report_result-Reports :
      (i : ℕ) (m : Mux) {c : Child}
      → get_elem? m.children i ≡ some c
      → is_done c.state ≡ false
      → except i ≡ true
      → all_fine every m.error m.children ≡ true
      → waits_for every except m ≡ true
      → Reports i has_result m (report_result invoke_all i c.awaiter m)
  unfolding report_result
  report_result-Reports i m {c} here open_ may h w =
      let a = c.awaiter in
      let s : State = last_state a in
      let first =
        set-Settles every except i s a.fails m here open_ (ground arith) (ground (arith, may)) h in
      let m1 : Mux = set_state i s m in
      let rest =
        invoke_all-Settles every except a.fails m1 first.fine (still_waits every except first w) in
      let n : Mux = invoke_all a.fails m1 in
      (
        join-Settles every except first rest,
        record c { state = s },
        Evolves-get i (set i s m.children) n.children rest.evolves
            (get_elem?-set i s m.children here) (ground arith),
        ground arith,
      )

  cancelled-Reports :
      (i : ℕ) (m : Mux) {c : Child}
      → get_elem? m.children i ≡ some c
      → is_done c.state ≡ false
      → (not every || m.error) ≡ true
      → all_fine every m.error m.children ≡ true
      → waits_for every except m ≡ true
      → Reports i is_done m (invoke_all false (set_state i cancelled m))
  cancelled-Reports i m {c} here open_ may h w =
      let m1 : Mux = set_state i cancelled m in
      let first = mark-Settles every except i cancelled m here open_ may refl h in
      let rest =
        invoke_none-Settles every except m1 first.fine (still_waits every except first w) in
      (
        join-Settles every except first rest,
        record c { state = cancelled },
        Evolves-get i m1.children (invoke_all false m1).children rest.evolves
            (get_elem?-set i cancelled m.children here) refl,
        refl,
      )

  result_done : (s : State) → has_result s ≡ true → is_done s ≡ true
  result_done succeeded h = refl
  result_done s h = ground (arith, h)

  weaken-Reports : (i : ℕ) {m n : Mux} → Reports i has_result m n → Reports i is_done m n
  weaken-Reports i (a, d, here, h) = (a, d, here, result_done d.state h)

  report_from-Reports :
      (i : ℕ) (a : Awaiter) (s : State) (m : Mux)
      → get_elem? m.children i ≡ some (record { state = s; awaiter = a })
      → has_result s ≡ false
      → except i ≡ true
      → all_fine every m.error m.children ≡ true
      → waits_for every except m ≡ true
      → Reports i is_done m (report_from invoke_all i a s m)
  unfolding report_from
  report_from-Reports i a not_started m here none_yet may h w =
      let f = fine-get every m.error i m.children here h in
      elim (Bool-cases a.await_ready) [
        | inl e ↦ rw e (weaken-Reports i (report_result-Reports i m here refl may h w))
        | inr e ↦
            let early : a.await_early_cancel ≡ true = ground (arith, f, e) in
            rw (e, early) (cancelled-Reports i m here refl (ground (arith, f, e)) h w)
      ]
  report_from-Reports i a cancellation_pending m here none_yet may h w =
      elim (Bool-cases a.await_must_resume) [
        | inl e ↦
            rw (e, set-set i ready (last_state a) m.children)
              (weaken-Reports i (report_result-Reports i m here refl may h w))
        | inr e ↦
            rw e (cancelled-Reports i m here refl (fine-get every m.error i m.children here h) h w)
      ]
  report_from-Reports i a cancelled m here none_yet may h w =
      let a = invoke_none-Settles every except m h w in
      (a, _, Evolves-get i m.children (invoke_all false m).children a.evolves here refl, refl)
  report_from-Reports i a s m here none_yet may h w =
      absurd (ground (arith, fine-get every m.error i m.children here h, none_yet))

-- One child, which has reported no result.
pub report-Reports :
    (every : Bool) (i : ℕ) (m : Mux) {c : Child}
    → get_elem? m.children i ≡ some c
    → has_result c.state ≡ false
    → all_fine every m.error m.children ≡ true
    → waits_for every (λ j. j == i) m ≡ true
    → Reports every (λ j. j == i) i is_done m (report i m)
unfolding report
report-Reports every i m {c} here none_yet h w =
    rw (here, at_child)
      (report_from-Reports every (λ j. j == i) i c.awaiter c.state m here none_yet (ground arith) h
        w)

-- One that is ready.
pub report-ready :
    (every : Bool) (i : ℕ) (m : Mux) {a : Awaiter}
    → get_elem? m.children i ≡ some (record { state = not_started; awaiter = a })
    → a.await_ready ≡ true
    → all_fine every m.error m.children ≡ true
    → waits_for every (λ j. j == i) m ≡ true
    → Reports every (λ j. j == i) i has_result m (report i m)
unfolding report report_from
report-ready every i m here e h w =
    rw (here, at_child, e)
      (report_result-Reports every (λ j. j == i) i m here refl (ground arith) h w)
