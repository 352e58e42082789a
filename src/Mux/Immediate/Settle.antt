-- ===== src/Mux/Immediate/Settle.antt =====
-- Taking the results of a combiner's children without a suspension (corral/detail/wait.h): what each call
-- does to the children.
use corral.Base.{
  ℕ, zero, suc, ◌+◌, ◌-◌, ◌≡◌, refl, ap, ◌∙◌, Bool, true, false, not, ◌&&◌, ◌||◌, some, ◌==◌,
  ==_iff, get_elem?, inl, inr, Bool-cases, Option-cases, arith,
}
use corral.Mux.{
  State, not_started, cancellation_pending, running, cancelled, Awaiter, Child, Mux, set, set_state,
  size, cancel_from, cancel, at_child, internal_cancel, resume_if_done, invoke, invoke_all,
}
use corral.Mux.Children.{is_done}
use corral.Mux.Immediate.Evolve.{
  fine_at, all_fine, Evolves, Evolves-refl, Evolves-trans, Evolves-set, Evolves-length, fine-get,
  fine-set, fine-error, has_result, fresh_at, fresh_at-set,
}

-- `except` has the children that may report a result meanwhile.
module _ (every : Bool) (except : ℕ → Bool) where
  -- `allOf` and `mostOf` wait for all.
  abbrev pub waits_for : Mux → Bool
  waits_for m = not every || (m.min_ready == size m)

  pub record Settles (m n : Mux) : Type 0 where
    pub fine : all_fine every n.error n.children ≡ true
    pub evolves : Evolves m.children n.children
    pub same_ready : n.min_ready ≡ m.min_ready
    pub sound : n.broken ≡ m.broken
    pub kept_error : (not m.error || n.error) ≡ true
    pub unreported :
        (j : ℕ) → except j ≡ false → fresh_at j m.children ≡ true → fresh_at j n.children ≡ true

  pub stay-Settles : (m : Mux) → all_fine every m.error m.children ≡ true → Settles m m
  stay-Settles m h = record {
    fine = h;
    evolves = Evolves-refl m.children;
    same_ready = refl;
    sound = refl;
    kept_error = ground arith;
    unreported = λ j free k. k;
  }

  pub join-Settles : {l m n : Mux} → Settles l m → Settles m n → Settles l n
  join-Settles {l} {m} {n} a b = record {
    fine = b.fine;
    evolves = Evolves-trans l.children m.children n.children a.evolves b.evolves;
    same_ready = b.same_ready ∙ a.same_ready;
    sound = b.sound ∙ a.sound;
    kept_error = ground (arith, a.kept_error, b.kept_error);
    unreported = λ j free k. b.unreported j free (a.unreported j free k);
  }

  excepted :
      (i j : ℕ) (s : State)
      → (has_result s && not (except i)) ≡ false
      → except j ≡ false
      → (j == i && has_result s) ≡ false
  excepted i j s may free = elim (Bool-cases (j == i)) [
    | inl e ↦ ground (arith, ap except ((==_iff j i).0 e), may, free)
    | inr e ↦ ground (arith, e)
  ]

  -- A child that is not done gets a state that is fine, and an error may be told.
  pub set-Settles :
      (i : ℕ) (s : State) (err : Bool) (m : Mux) {c : Child}
      → get_elem? m.children i ≡ some c
      → is_done c.state ≡ false
      → fine_at every (m.error || err) c.awaiter s ≡ true
      → (has_result s && not (except i)) ≡ false
      → all_fine every m.error m.children ≡ true
      → Settles m (record m { children = set i s m.children; error = m.error || err })
  set-Settles i s err m here open_ f may h = record {
    fine =
        fine-set every (m.error || err) i s m.children here f
          (fine-error every m.error (m.error || err) m.children h (ground arith));
    evolves = Evolves-set i s m.children here open_;
    same_ready = refl;
    sound = refl;
    kept_error = ground arith;
    unreported = λ j free k. fresh_at-set i j s m.children (excepted i j s may free) k;
  }

  pub mark-Settles :
      (i : ℕ) (s : State) (m : Mux) {c : Child}
      → get_elem? m.children i ≡ some c
      → is_done c.state ≡ false
      → fine_at every m.error c.awaiter s ≡ true
      → has_result s ≡ false
      → all_fine every m.error m.children ≡ true
      → Settles m (set_state i s m)
  mark-Settles i s m here open_ f none_yet h = record {
    fine = fine-set every m.error i s m.children here f h;
    evolves = Evolves-set i s m.children here open_;
    same_ready = refl;
    sound = refl;
    kept_error = ground arith;
    unreported = λ j free k. fresh_at-set i j s m.children (ground (arith, none_yet)) k;
  }

  -- What is needed of the calls within.
  abbrev pub Calm : (Bool → Mux → Mux) → Type 0
  Calm inv =
      (m : Mux)
      → all_fine every m.error m.children ≡ true
      → waits_for m ≡ true
      → Settles m (inv false m)

  pub still_waits : {m n : Mux} → Settles m n → waits_for m ≡ true → waits_for n ≡ true
  still_waits {m} {n} a h =
      ground (arith, h, a.same_ready, Evolves-length m.children n.children a.evolves)

  module _ (inv : Bool → Mux → Mux) (calm : Calm inv) where
    pub cancelled-Settles :
        (i : ℕ) (m : Mux) {c : Child}
        → get_elem? m.children i ≡ some c
        → is_done c.state ≡ false
        → (not every || m.error) ≡ true
        → all_fine every m.error m.children ≡ true
        → waits_for m ≡ true
        → Settles m (inv false (set_state i cancelled m))
    cancelled-Settles i m here open_ may h w =
        let a = mark-Settles i cancelled m here open_ may refl h in
        join-Settles a (calm (set_state i cancelled m) a.fine (still_waits a w))

    cancel_from-Settles :
        (i : ℕ) (a : Awaiter) (s : State) (m : Mux)
        → get_elem? m.children i ≡ some (record { state = s; awaiter = a })
        → (not every || m.error) ≡ true
        → all_fine every m.error m.children ≡ true
        → waits_for m ≡ true
        → Settles m (cancel_from inv i a s m)
    unfolding cancel_from
    cancel_from-Settles i a not_started m here may h w = elim (Bool-cases a.await_early_cancel) [
      | inl e ↦ rw e (cancelled-Settles i m here refl may h w)
      | inr e ↦ rw e (mark-Settles i cancellation_pending m here refl may refl h)
    ]
    cancel_from-Settles i a running m here may h w =
        absurd (ground (arith, fine-get every m.error i m.children here h))
    cancel_from-Settles i a s m here may h w = stay-Settles m h

    cancel-Settles :
        (i : ℕ) (m : Mux)
        → (not every || m.error) ≡ true
        → all_fine every m.error m.children ≡ true
        → waits_for m ≡ true
        → Settles m (cancel inv i m)
    unfolding cancel
    cancel-Settles i m may h w = elim (Option-cases (get_elem? m.children i)) [
      | inl out ↦ rw (out, at_child) (stay-Settles m h)
      | inr (c, here) ↦ rw (here, at_child) (cancel_from-Settles i c.awaiter c.state m here may h w)
    ]

    internal_cancel-Settles :
        (i k : ℕ) (m : Mux)
        → (not every || m.error) ≡ true
        → all_fine every m.error m.children ≡ true
        → waits_for m ≡ true
        → Settles m (internal_cancel inv i k m)
    unfolding internal_cancel
    internal_cancel-Settles i zero m may h w = stay-Settles m h
    internal_cancel-Settles i (suc k) m may h w =
        let a = cancel-Settles i m may h w in
        join-Settles a (
          internal_cancel-Settles (i + 1) k (cancel inv i m) (ground (arith, may, a.kept_error))
            a.fine (still_waits a w))

  -- The count and the resumptions do not matter.
  recount-Settles :
      (m n : Mux) (i j k l : ℕ)
      → Settles m n
      → Settles (record m { count = i; resumed = j }) (record n { count = k; resumed = l })
  recount-Settles m n i j k l a = record {
    fine = a.fine;
    evolves = a.evolves;
    same_ready = a.same_ready;
    sound = a.sound;
    kept_error = a.kept_error;
    unreported = a.unreported;
  }

  resume_if_done-Settles : (m n : Mux) → Settles m n → Settles m (resume_if_done n)
  resume_if_done-Settles m n a = elim (Bool-cases (n.count == size n)) [
    | inl e ↦ rw e (recount-Settles m n m.count m.resumed n.count (n.resumed + 1) a)
    | inr e ↦ rw e a
  ]

  -- An awaitable reports an error or none.
  abbrev pub told : Bool → Mux → Mux
  told err m = record m { error = m.error || err }

  invoke_by :
      (fuel : ℕ)
      → Calm (invoke fuel)
      → (err : Bool) (m : Mux) → all_fine every (m.error || err) m.children ≡ true
      → waits_for m ≡ true
      → Settles (told err m) (invoke (suc fuel) err m)
  unfolding invoke
  invoke_by fuel calm err m h w =
      let n : Mux = record m { count = m.count + 1; error = m.error || err } in
      let same : Settles (told err m) n =
        recount-Settles (told err m) (told err m) m.count m.resumed (m.count + 1) m.resumed
          (stay-Settles (told err m) h) in
      elim (Bool-cases (n.count == size m)) [
        | inl last ↦
            rw last (recount-Settles (told err m) n m.count m.resumed n.count (n.resumed + 1) same)
        | inr more ↦ rw more (elim (Bool-cases (err && not m.error || n.count == m.min_ready)) [
          | inl cancels_rest ↦ rw cancels_rest (
              let start : Mux = record n { count = n.count - 1 } in
              let r : Mux = internal_cancel (invoke fuel) 0 (size m) start in
              let rest =
                internal_cancel-Settles (invoke fuel) calm 0 (size m) start
                  (ground (arith, cancels_rest, more, w)) h w in
              resume_if_done-Settles (told err m) (record r { count = r.count + 1 })
                (recount-Settles start r m.count m.resumed (r.count + 1) r.resumed rest))
          | inr none_cancelled ↦ rw none_cancelled same
        ])
      ]

  told-Settles : (err : Bool) (m n : Mux) → Settles (told err m) n → Settles m n
  told-Settles err m n a = record {
    fine = a.fine;
    evolves = a.evolves;
    same_ready = a.same_ready;
    sound = a.sound;
    kept_error = ground (arith, a.kept_error);
    unreported = a.unreported;
  }

  pub invoke-Calm : (fuel : ℕ) → Calm (invoke fuel)
  unfolding invoke
  invoke-Calm zero m h w = stay-Settles m h
  invoke-Calm (suc fuel) m h w = told-Settles false m (invoke (suc fuel) false m) (
      invoke_by fuel (invoke-Calm fuel) false m
        (fine-error every m.error (m.error || false) m.children h (ground arith)) w)

  pub invoke_all-Settles :
      (err : Bool) (m : Mux)
      → all_fine every (m.error || err) m.children ≡ true
      → waits_for m ≡ true
      → Settles (told err m) (invoke_all err m)
  invoke_all-Settles err m h w =
      let e : size m + 1 ≡ suc (size m) = omega arith in
      rw e (invoke_by (size m) (invoke-Calm (size m)) err m h w)

  pub invoke_none-Settles :
      (m : Mux)
      → all_fine every m.error m.children ≡ true
      → waits_for m ≡ true
      → Settles m (invoke_all false m)
  invoke_none-Settles m h w = told-Settles false m (invoke_all false m) (
      invoke_all-Settles false m
        (fine-error every m.error (m.error || false) m.children h (ground arith)) w)
