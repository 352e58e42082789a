-- ===== src/Nursery/Destroyed.antt =====
-- What becomes of the tasks of a nursery (corral/Nursery.h).
use corral.Base.{
  ℕ, ◌+◌, ◌-◌, ◌≡◌, refl, sym, subst, ◌∙◌, Bool, true, not, ◌&&◌, ◌||◌, Option, none, some, List,
  [], ◌∷◌, ◌++◌, if◌then◌else◌, ◌==◌, has, remove, by_true, by_false, IsUnique, ==_iff, Bool-cases,
  inl, inr, arith,
}
use corral.Nursery.{
  Job, destroy, resume_parent, Nursery, opened, is_empty, continuation, cancel_each, do_cancel,
  cancel, adopt, store_error, Retval, join, cancels, fails, store_value, store_retval, enter,
  run_next,
}
use corral.Nursery.Inv.{Core, has-parent, no_jobs}
use corral.Nursery.Cancel.{within, within_self, tell-Core, tell_one-Told, within-told}
use corral.Nursery.Steps.{set-Core, Inv, Keeps, store_value-Keeps, store_retval-Keeps}
use corral.Nursery.Runs.{
  Call, starts, ends, ends_body, cancels_all, starts_pending, ends_pending, hands_off, runs,
  allowed, step, all_allowed, runs_to, step-Inv, runs_to-enter,
}

module _ (i : ℕ) where
  abbrev pub is_it : ℕ → ℕ
  is_it p = if p == i then 1 else 0

  -- How often a promise is in a list, or is to be destroyed.
  unfoldable pub occurs : List ℕ → ℕ
  occurs [] = 0
  occurs (p ∷ ps) = is_it p + occurs ps

  unfoldable pub doomed : List Job → ℕ
  doomed [] = 0
  doomed (destroy p ∷ js) = is_it p + doomed js
  doomed (resume_parent ∷ js) = doomed js

  abbrev pub held : Nursery → ℕ
  held n = occurs n.tasks + doomed n.jobs + occurs n.destroyed

  occurs-remove :
      (p : ℕ) (ps : List ℕ) → has p ps ≡ true → occurs ps ≡ is_it p + occurs (remove p ps)
  unfolding occurs has remove
  occurs-remove p [] h = ground (arith, h)
  occurs-remove p (q ∷ ps) h = elim (Bool-cases (q == p)) [
    | inl e ↦
        simp e
          (subst (λ k. is_it k + occurs ps ≡ is_it p + occurs ps) (sym ((==_iff q p).0 e)) refl)
    | inr e ↦ simp e (omega (arith, occurs-remove p ps (ground (arith, h, e))))
  ]

  occurs-snoc : (ps : List ℕ) (p : ℕ) → occurs (ps ++ p ∷ []) ≡ occurs ps + is_it p
  unfolding occurs
  occurs-snoc [] p = omega arith
  occurs-snoc (q ∷ ps) p = omega (arith, occurs-snoc ps p)

  doomed-snoc_destroy :
      (js : List Job) (p : ℕ) → doomed (js ++ destroy p ∷ []) ≡ doomed js + is_it p
  unfolding doomed
  doomed-snoc_destroy [] p = omega arith
  doomed-snoc_destroy (destroy q ∷ js) p = omega (arith, doomed-snoc_destroy js p)
  doomed-snoc_destroy (resume_parent ∷ js) p = doomed-snoc_destroy js p

  doomed-snoc_resume : (js : List Job) → doomed (js ++ resume_parent ∷ []) ≡ doomed js
  unfolding doomed
  doomed-snoc_resume [] = refl
  doomed-snoc_resume (destroy q ∷ js) = omega (arith, doomed-snoc_resume js)
  doomed-snoc_resume (resume_parent ∷ js) = doomed-snoc_resume js

  open_continuation-held :
      (p : ℕ) (n : Nursery)
      → has p n.tasks ≡ true
      → held (continuation (some p) (record n { executor = true })) ≡ held n
  unfolding continuation
  open_continuation-held p n here = ground (
    arith,
    occurs-remove p n.tasks here,
    doomed-snoc_destroy n.jobs p,
    doomed-snoc_resume (n.jobs ++ destroy p ∷ []),
  )

  continuation-held :
      (p : ℕ) (n : Nursery)
      → Core n
      → has p n.tasks ≡ true
      → held (continuation (some p) n) ≡ held n
  continuation-held p n v here =
      subst (λ b. held (continuation (some p) (record n { executor = b })) ≡ held n)
        (sym (v.open_ ∙ has-parent p v here)) (open_continuation-held p n here)

  tell_one-held :
      (quick : ℕ → Bool) (p : ℕ) (n : Nursery)
      → Core n
      → has p n.tasks ≡ true
      → let m = record n { told = n.told ++ p ∷ [] } in
        held (if quick p then continuation (some p) m else m) ≡ held n
  tell_one-held quick p n v here =
      let m : Nursery = record n { told = n.told ++ p ∷ [] } in
      elim (Bool-cases (quick p)) [
        | inl last ↦
            by_true (λ x. held x ≡ held n) m last
              (continuation-held p m (tell-Core (n.told ++ p ∷ []) v) here)
        | inr stays ↦ by_false (λ x. held x ≡ held n) (continuation (some p) m) stays refl
      ]

  cancel_each-held :
      (quick : ℕ → Bool) (ps : List ℕ) (n : Nursery)
      → Core n
      → IsUnique n.tasks
      → IsUnique ps
      → within ps n.tasks ≡ true
      → held (cancel_each quick ps n) ≡ held n
  unfolding cancel_each within
  cancel_each-held quick [] n v u w h = refl
  cancel_each-held quick (p ∷ ps) n v u w h =
      let m : Nursery = record n { told = n.told ++ p ∷ [] } in
      let t = tell_one-Told quick p n v u (ground (arith, h)) in
      let rest =
        cancel_each-held quick ps (if quick p then continuation (some p) m else m) t.core t.unique
          w.1 (within-told quick p ps n w.0 (ground (arith, h))) in
      rest ∙ tell_one-held quick p n v (ground (arith, h))

  do_cancel-held :
      (quick : ℕ → Bool) (n : Nursery)
      → Core n
      → IsUnique n.tasks
      → held (do_cancel quick n) ≡ held n
  unfolding do_cancel
  do_cancel-held quick n v u = elim (Bool-cases (not n.executor || is_empty n.tasks)) [
    | inl nothing ↦ by_true (λ x. held x ≡ held n) _ nothing refl
    | inr tasks ↦
        by_false (λ x. held x ≡ held n) n tasks
          (cancel_each-held quick n.tasks n v u u (within_self n.tasks))
  ]

  cancel-held : (quick : ℕ → Bool) (n : Nursery) → Inv n → held (cancel quick n) ≡ held n
  unfolding cancel
  cancel-held quick n v = elim (Bool-cases n.cancelling) [
    | inl again ↦ by_true (λ x. held x ≡ held n) _ again refl
    | inr first ↦
        by_false (λ x. held x ≡ held n) n first
          (do_cancel-held quick (record n { cancelling = true }) (set-Core true n.error v.core)
            v.unique)
  ]

  store_error-held :
      (quick : ℕ → Bool) (e : ℕ) (n : Nursery) → Inv n → held (store_error quick e n) ≡ held n
  unfolding store_error
  store_error-held quick e n v =
      let f : Option ℕ = elim n.error [ none ↦ some e | some g ↦ some g ] in
      elim (Bool-cases (not n.parent)) [
        | inl alone ↦ by_true (λ x. held x ≡ held n) _ alone refl
        | inr attached ↦
            by_false (λ x. held x ≡ held n) _ attached
              (elim (Bool-cases (not n.cancelling)) [
                | inl first ↦
                    by_true (λ x. held x ≡ held n) _ first
                      (do_cancel-held quick (record n { cancelling = true; error = f })
                        (set-Core true f v.core) v.unique)
                | inr again ↦ by_false (λ x. held x ≡ held n) _ again refl
              ])
      ]

  store_value-held :
      (quick : ℕ → Bool) (value : Option ℕ) (n : Nursery)
      → Inv n
      → held (store_value quick value n) ≡ held n
  store_value-held quick none n v = refl
  store_value-held quick (some e) n v = store_error-held quick e n v

  store_retval-held :
      (quick : ℕ → Bool) (r : Retval) (n : Nursery) → Inv n → held (store_retval quick r n) ≡ held n
  store_retval-held quick join n v = refl
  store_retval-held quick cancels n v = cancel-held quick n v
  store_retval-held quick (fails e) n v = store_error-held quick e n v

  adopt-held : (p : ℕ) (n : Nursery) → n.executor ≡ true → held (adopt p n) ≡ is_it p + held n
  unfolding adopt
  adopt-held p n there = ground (arith, there, occurs-snoc n.tasks p)

  run_next-held :
      (js : List Job) (n : Nursery)
      → held (run_next (record n { jobs = js })) ≡ held (record n { jobs = js })
  unfolding run_next doomed
  run_next-held [] n = refl
  run_next-held (destroy p ∷ js) n = omega (arith, occurs-snoc n.destroyed p)
  run_next-held (resume_parent ∷ js) n = refl

  -- How often a promise is adopted by a call, or by a sequence of them.
  unfoldable pub adopted_by : Call → ℕ
  adopted_by (starts quick (some p) value) = is_it p
  adopted_by (hands_off p) = is_it p
  adopted_by _ = 0

  unfoldable pub adopted : List Call → ℕ
  unfolding adopted_by
  adopted [] = 0
  adopted (c ∷ cs) = adopted_by c + adopted cs

  end-held :
      (quick : ℕ → Bool) (p : ℕ) (n m : Nursery)
      → Keeps quick n m
      → held m ≡ held n
      → (has p n.tasks && not (quick p)) ≡ true
      → held (continuation (some p) m) ≡ held n
  end-held quick p n m k e ok =
      continuation-held p m k.inv.core (k.kept p (ground (arith, ok)) (ground (arith, ok))) ∙ e

  step-held :
      (c : Call) (n : Nursery)
      → Inv n
      → allowed c n ≡ true
      → held (step c n) ≡ adopted_by c + held n
  unfolding step allowed adopted_by
  step-held (starts quick none value) n v ok = omega (arith, store_value-held quick value n v)
  step-held (starts quick (some p) value) n v ok = adopt-held p n (ground (arith, v.core.open_, ok))
  step-held (ends quick p value) n v ok =
      let k = store_value-Keeps quick value n v (has-parent p v.core (ground (arith, ok))) in
      omega (
        arith,
        end-held quick p n (store_value quick value n) k (store_value-held quick value n v) ok,
      )
  step-held (ends_body quick p r) n v ok =
      let k = store_retval-Keeps quick r n v (has-parent p v.core (ground (arith, ok))) in
      omega
        (arith, end-held quick p n (store_retval quick r n) k (store_retval-held quick r n v) ok)
  step-held (cancels_all quick) n v ok = omega (arith, cancel-held quick n v)
  step-held starts_pending n v ok = omega arith
  step-held ends_pending n v ok = omega arith
  step-held (hands_off p) n v ok =
      adopt-held p (record n { pending_task_count = n.pending_task_count - 1 })
        (ground (arith, v.core.open_, v.core.closed, ok))
  step-held runs n v ok = omega (arith, run_next-held n.jobs n)

  runs_to-held :
      (cs : List Call) (n : Nursery)
      → Inv n
      → all_allowed cs n ≡ true
      → held (runs_to cs n) ≡ adopted cs + held n
  unfolding runs_to all_allowed adopted
  runs_to-held [] n v ok = omega arith
  runs_to-held (c ∷ cs) n v ok =
      let rest =
        runs_to-held cs (step c n) (step-Inv c n v (ground (arith, ok))) (ground (arith, ok)) in
      omega (arith, rest, step-held c n v (ground (arith, ok)))

  enter-held :
      (quick : ℕ → Bool) (body : Option ℕ) (r : Retval)
      → held (enter quick body r opened) ≡ adopted_by (starts quick body none)
  unfolding continuation cancel do_cancel store_error adopt adopted_by occurs doomed
  enter-held quick none join = refl
  enter-held quick none cancels = refl
  enter-held quick none (fails e) = refl
  enter-held quick (some p) r = omega arith

  occurs-nil : (ps : List ℕ) → is_empty ps ≡ true → occurs ps ≡ 0
  unfolding occurs
  occurs-nil [] h = refl
  occurs-nil (p ∷ ps) h = absurd (ground (arith, h))

  doomed-nil : (js : List Job) → no_jobs js ≡ true → doomed js ≡ 0
  unfolding doomed
  doomed-nil [] h = refl
  doomed-nil (j ∷ js) h = absurd (ground (arith, h))

  nothing-held : (n : Nursery) → Inv n → n.resumed ≡ 1 → held n ≡ occurs n.destroyed
  nothing-held n v back = omega (
    arith,
    occurs-nil n.tasks (ground (arith, v.core.once, v.core.closed, back)),
    doomed-nil n.jobs (ground (arith, v.core.finished, back)),
  )

-- Once the parent of a nursery has been resumed, after any calls that are allowed, every task that was
-- ever adopted has had its promise destroyed as often as it was adopted, the body among them.
pub runs_to-destroyed :
    (i : ℕ) (quick : ℕ → Bool) (body : Option ℕ) (r : Retval) (cs : List Call)
    → all_allowed cs (enter quick body r opened) ≡ true
    → (runs_to cs (enter quick body r opened)).resumed ≡ 1
    → occurs i (runs_to cs (enter quick body r opened)).destroyed
      ≡ adopted i (starts quick body none ∷ cs)
unfolding adopted all_allowed runs_to
runs_to-destroyed i quick body r cs ok back =
    let start = enter quick body r opened in
    let v = runs_to-enter quick body r cs ok in
    omega (
      arith,
      nothing-held i (runs_to cs start) v back,
      runs_to-held i cs start (runs_to-enter quick body r [] refl) ok,
      enter-held i quick body r,
    )
