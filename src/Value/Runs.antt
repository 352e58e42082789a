-- ===== src/Value/Runs.antt =====
-- Any sequence of calls on a value (corral/Value.h), and an awaiter that outlives a change before it is
-- awaited.
use corral.Base.{
  ℕ, ap, ◌≡◌, refl, Bool, true, false, not, ◌&&◌, List, [], ◌∷◌, ◌++◌, if◌then◌else◌, Bool-cases,
  inl, inr, arith,
}
use corral.Value.{
  Watch, until_matches, comparison, until_changed, Result, nothing, one, pair, Awaiter, Value,
  initial_result, construct, await_ready, await_suspend, await_cancel, without, modify, set,
}
use corral.Value.Laws.{wants, yields, those, keeps, resumes, modify_lem}

-- `co_await` of a new awaiter, the cancellation of one, and any change of the value.
pub data Call (A : Type 0) : Type 0 where
  awaits : ℕ → Watch A → Call A
  cancels : ℕ → Call A
  modifies : (A → A) → Call A

module _ {A : Type 0} where
  -- Whether an awaiter has reason to wait while the value is as given.
  unfoldable pub idle : A → Watch A → Bool
  idle x (until_matches fn) = not (fn x)
  idle x (comparison fn) = not (fn x)
  idle x (until_changed fn) = true

  -- Whether a result is one that was waited for.
  unfoldable pub satisfies : Watch A → Result A → Bool
  satisfies (until_matches fn) (one x) = fn x
  satisfies (until_matches fn) _ = false
  satisfies (comparison fn) r = true
  satisfies (until_changed fn) (pair x y) = fn x y
  satisfies (until_changed fn) _ = false

  unfoldable pub all : (Awaiter A → Bool) → List (Awaiter A) → Bool
  all p [] = true
  all p (a ∷ as_) = p a && all p as_

  all-append :
      (p : Awaiter A → Bool) (as_ bs : List (Awaiter A))
      → all p as_ ≡ true
      → all p bs ≡ true
      → all p (as_ ++ bs) ≡ true
  unfolding all
  all-append p [] bs h k = k
  all-append p (a ∷ as_) bs h k = ground (arith, all-append p as_ bs)

  all-without :
      (p : Awaiter A → Bool) (i : ℕ) (as_ : List (Awaiter A))
      → all p as_ ≡ true
      → all p (without i as_) ≡ true
  unfolding all without
  all-without p i [] h = refl
  all-without p i (a ∷ as_) h = ground (arith, all-without p i as_)

  unwanted-idle : (w : Watch A) (from to : A) → wants w from to ≡ false → idle to w ≡ true
  unfolding wants idle
  unwanted-idle (until_matches fn) from to e = rw e refl
  unwanted-idle (comparison fn) from to e = rw e refl
  unwanted-idle (until_changed fn) from to e = refl

  yields-satisfies :
      (w : Watch A) (from to : A) (r : Result A)
      → wants w from to ≡ true
      → satisfies w (yields w from to r) ≡ true
  unfolding wants yields satisfies
  yields-satisfies (until_matches fn) from to r e = e
  yields-satisfies (comparison fn) from to r e = refl
  yields-satisfies (until_changed fn) from to r e = e

  abbrev pub waits : A → Awaiter A → Bool
  waits x a = idle x a.watch

  abbrev pub served_right : Awaiter A → Bool
  served_right a = satisfies a.watch a.result

  keeps-idle : (from to : A) (as_ : List (Awaiter A)) → all (waits to) (keeps from to as_) ≡ true
  unfolding all those
  keeps-idle from to [] = refl
  keeps-idle from to (a ∷ as_) = elim (Bool-cases (wants a.watch from to)) [
    | inl e ↦ rw e (keeps-idle from to as_)
    | inr e ↦ rw (e, unwanted-idle a.watch from to e) (keeps-idle from to as_)
  ]

  resumes-satisfied :
      (from to : A) (as_ : List (Awaiter A)) → all served_right (resumes from to as_) ≡ true
  unfolding all those
  resumes-satisfied from to [] = refl
  resumes-satisfied from to (a ∷ as_) = elim (Bool-cases (wants a.watch from to)) [
    | inl e ↦ rw (e, yields-satisfies a.watch from to a.result e) (resumes-satisfied from to as_)
    | inr e ↦ rw e (resumes-satisfied from to as_)
  ]

  -- Nobody waits for what holds, and nobody was resumed with what was not waited for.
  pub record Inv (v : Value A) : Type 0 where
    pub waiting : all (waits v.value) v.parked ≡ true
    pub satisfied : all served_right v.resumed ≡ true

  unfoldable pub step : Call A → Value A → Value A
  step (awaits i w) v = let a = construct i w v in if await_ready a v then v else await_suspend a v
  step (cancels i) v = await_cancel i v
  step (modifies fn) v = (modify fn v).1

  unfoldable pub run : List (Call A) → Value A → Value A
  unfolding step
  run [] v = v
  run (c ∷ cs) v = run cs (step c v)

  suspend-Inv :
      (a : Awaiter A) {v : Value A} → idle v.value a.watch ≡ true → Inv v → Inv (await_suspend a v)
  unfolding all
  suspend-Inv a {v} e i = record {
    waiting = all-append (waits v.value) v.parked (a ∷ []) i.waiting (ground (arith, e));
    satisfied = i.satisfied;
  }

  await-Inv : (i : ℕ) (w : Watch A) {v : Value A} → Inv v → Inv (step (awaits i w) v)
  unfolding step initial_result idle
  await-Inv i (until_matches fn) {v} n = elim (Bool-cases (fn v.value)) [
    | inl e ↦ rw e n
    | inr e ↦ rw e (
        suspend-Inv (record { address = i; watch = until_matches fn; result = nothing }) (rw e refl)
          n)
  ]
  await-Inv i (comparison fn) {v} n = elim (Bool-cases (fn v.value)) [
    | inl e ↦ rw e n
    | inr e ↦ rw e (suspend-Inv (construct i (comparison fn) v) (rw e refl) n)
  ]
  await-Inv i (until_changed fn) {v} n = suspend-Inv (construct i (until_changed fn) v) refl n

  modify-Inv : (fn : A → A) {v : Value A} → Inv v → Inv ((modify fn v).1)
  modify-Inv fn {v} n = rw (modify_lem fn v) (record {
    waiting = keeps-idle v.value (fn v.value) v.parked;
    satisfied =
        all-append served_right v.resumed (resumes v.value (fn v.value) v.parked) n.satisfied
          (resumes-satisfied v.value (fn v.value) v.parked);
  })

  step-Inv : (c : Call A) {v : Value A} → Inv v → Inv (step c v)
  unfolding step
  step-Inv (awaits i w) n = await-Inv i w n
  step-Inv (cancels i) {v} n = record {
    waiting = all-without (waits v.value) i v.parked n.waiting;
    satisfied = n.satisfied;
  }
  step-Inv (modifies fn) n = modify-Inv fn n

  -- Whatever is cancelled, changed, and awaited as soon as its awaiter is constructed, if it was so before
  -- then still nobody waits for a predicate that the value satisfies, and whoever was resumed yields a
  -- value, or a change, that satisfies its predicate.
  pub run-Inv : (cs : List (Call A)) {v : Value A} → Inv v → Inv (run cs v)
  unfolding run
  run-Inv [] n = n
  run-Inv (c ∷ cs) n = run-Inv cs (step-Inv c n)

  all-snoc_false :
      (p : Awaiter A → Bool) (as_ : List (Awaiter A)) (a : Awaiter A)
      → p a ≡ false
      → all p (as_ ++ a ∷ []) ≡ false
  unfolding all
  all-snoc_false p [] a h = ground (arith, h)
  all-snoc_false p (b ∷ as_) a h = ground (arith, all-snoc_false p as_ a h)

  set_lem :
      (x : A) (v : Value A)
      → set x v ≡ record {
        value = x;
        parked = keeps v.value x v.parked;
        resumed = v.resumed ++ resumes v.value x v.parked;
      }
  set_lem x v = ap (λ r. r.1) (modify_lem (λ _. x) v)

  -- An awaiter of `untilMatches` that was constructed when its predicate did not hold, and is awaited
  -- after the value was set to one for which it does, is not ready and waits; one of `until` is ready.
  pub set-stale :
      (fn : A → Bool) (i : ℕ) (x : A) (v : Value A)
      → fn v.value ≡ false
      → fn x ≡ true
      → let a = construct i (until_matches fn) v in
        (await_ready a (set x v) ≡ false)
        × (await_ready (construct i (comparison fn) v) (set x v) ≡ true)
        × (all (waits (set x v).value) (await_suspend a (set x v)).parked ≡ false)
  unfolding initial_result idle
  set-stale fn i x v before after =
      rw (before, set_lem x v, after)
        (
          refl,
          refl,
          all-snoc_false (waits x) (keeps v.value x v.parked)
              (record { address = i; watch = until_matches fn; result = nothing }) (rw after refl),
        )
