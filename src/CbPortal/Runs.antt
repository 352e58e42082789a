-- ===== src/CbPortal/Runs.antt =====
-- Sequences of calls of a callback, of cancellations and of awaits of its portal (corral/CBPortal.h).
use corral.Base.{
  ◌≡◌, ◌==◌, refl, sym, ◌∙◌, ap, Bool, true, false, not, ◌&&◌, ◌||◌, List, [], ◌∷◌, Option, none,
  some, if◌then◌else◌, arith,
}
use corral.CbPortal.{
  Status, not_started, scheduled, cancel_pending, initiated, Portal, proxy, has_value, proxy_cancel,
  Event, calls, cancels, awaits, step, and_then, run, initiated_by, suspended, await_suspend,
  await_proxy,
}
use corral.CbPortal.Inv.{is_not_started, is_cancel_pending, is_initiated, Inv, Keeps, status-Sound}
use corral.CbPortal.Moves.{call-Keeps, cancel-Keeps, proxy_cancel-Keeps, await-Keeps}

module _ {A : Type 0} where
  -- The callback is called with the value before taken, on a portal that is there; a task that waits is
  -- cancelled; and one that neither waits nor was cancelled awaits the user's portal.
  abbrev pub allowed : Event A → Portal A → Bool
  allowed (calls v again) p =
      not (has_value p.value) && (p.external || p.proxied && (p.confirmed == 0))
  allowed (cancels again) p = p.parent
  allowed (awaits again) p = p.external && not p.parent && not p.proxied && not p.asked

  abbrev pub holds_of : Option (Portal A) → (Portal A → Bool) → Bool
  holds_of none f = true
  holds_of (some p) f = f p

  unfoldable pub all_allowed : List (Event A) → Portal A → Bool
  unfolding step
  all_allowed [] p = true
  all_allowed (e ∷ es) p = allowed e p && holds_of (step e p) (all_allowed es)

  then-Keeps :
      (o : Option (Portal A)) (f : Portal A → Option (Portal A))
      → Keeps o
      → ((q : Portal A) → o ≡ some q → Inv q → Keeps (f q))
      → Keeps (and_then o f)
  then-Keeps o f (q, e, v) g = let (r, h, w) = g q e v in (r, ap (λ o. and_then o f) e ∙ h, w)

  step-Keeps : (e : Event A) (p : Portal A) → allowed e p ≡ true → Inv p → Keeps (step e p)
  unfolding step
  step-Keeps (calls x again) p ok v = call-Keeps x again p (ground (arith, ok)) v
  step-Keeps (cancels again) p ok v = cancel-Keeps again p v
  step-Keeps (awaits again) p ok v = await-Keeps again p (ground (arith, ok)) v

  run-Keeps :
      (es : List (Event A)) (p : Portal A) → all_allowed es p ≡ true → Inv p → Keeps (run es p)
  unfolding run all_allowed
  run-Keeps [] p ok v = (p, refl, v)
  run-Keeps (e ∷ es) p ok v =
      then-Keeps (step e p) (run es) (step-Keeps e p (ground (arith, ok)) v) (λ q f w.
        run-Keeps es q (ap (λ o. holds_of o (all_allowed es)) (sym f) ∙ ground (arith, ok)) w)

  if-Keeps :
      (b : Bool) (o o' : Option (Portal A))
      → (b ≡ true → Keeps o)
      → (b ≡ false → Keeps o')
      → Keeps (if b then o else o')
  if-Keeps true o o' f g = f refl
  if-Keeps false o o' f g = g refl

  initiated_by-Keeps :
      (g : Status) (again : Bool) (p : Portal A)
      → p.status ≡ g
      → p.proxied ≡ true
      → Inv p
      → Keeps (initiated_by again g p)
  unfolding initiated_by
  initiated_by-Keeps cancel_pending again p s e v =
      let q = record p { status = initiated } in
      let w = status-Sound initiated p refl refl v.sound in
      let pending = ap is_cancel_pending s in
      if-Keeps p.parent (proxy_cancel initiated again q) (some q)
        (λ h.
          proxy_cancel-Keeps initiated again q refl refl e
            (ground (arith, v.sound.put_off, e, pending)) w v.empty)
        (λ h. (q, refl, record { sound = w; empty = v.empty; answered = ground (arith, h) }))
  initiated_by-Keeps not_started again p s e v =
      absurd (ground (arith, v.sound.begun, e, ap is_not_started s))
  initiated_by-Keeps scheduled again p s e v = (
    record p { status = initiated },
    refl,
    record {
      sound = status-Sound initiated p refl refl v.sound;
      empty = v.empty;
      answered = ground (arith, v.answered, ap is_cancel_pending s, ap is_initiated s);
    },
  )
  initiated_by-Keeps initiated again p s e v = (
    record p { status = initiated },
    refl,
    record {
      sound = status-Sound initiated p refl refl v.sound;
      empty = v.empty;
      answered = ground (arith, v.answered, e, ap is_cancel_pending s, ap is_initiated s);
    },
  )

  await_suspend-Keeps :
      (es : List (Event A)) (again : Bool) (p : Portal A)
      → all_allowed es (suspended p) ≡ true
      → Inv (suspended p)
      → Keeps (await_suspend es again p)
  unfolding await_suspend
  await_suspend-Keeps es again p ok v =
      then-Keeps (run es (suspended p))
        (λ q. if q.proxied then initiated_by again q.status q else some q)
        (run-Keeps es (suspended p) ok v)
        (λ q e w.
          if-Keeps q.proxied (initiated_by again q.status q) (some q)
            (λ h. initiated_by-Keeps q.status again q refl h w) (λ h. (q, refl, w)))

  -- The proxy of a task that is asked to cancel, or not, before it awaits it.
  abbrev asked_early : Bool → Portal A → Portal A
  asked_early false p = p
  asked_early true p = record p {
    asked = true;
    status = if p.external then cancel_pending else p.status;
  }

  waiting-Inv :
      (external cancellable asked : Bool) (g : Status)
      → (is_not_started g || is_cancel_pending g && not asked || not (is_cancel_pending g) && asked)
        ≡ false
      → Inv (record (proxy {A = A} external cancellable) {
        parent = true;
        proxied = true;
        asked = asked;
        status = g;
      })
  waiting-Inv x c a g e = record {
    sound = record {
      order = refl;
      confirmed_once = omega arith;
      asked_first = refl;
      ended = refl;
      begun = ground (arith, e);
      put_off = ground (arith, e);
    };
    empty = refl;
    answered = ground (arith, e);
  }

  suspended-Inv :
      (external cancellable cancelled : Bool)
      → (external || not cancelled) ≡ true
      → Inv (suspended (asked_early cancelled (proxy external cancellable)))
  suspended-Inv true c true e = waiting-Inv true c true cancel_pending refl
  suspended-Inv true c false e = waiting-Inv true c false scheduled refl
  suspended-Inv false c false e = waiting-Inv false c false scheduled refl
  suspended-Inv false c true e = absurd (ground (arith, e))

  await_proxy-Keeps :
      (external cancellable cancelled again : Bool) (es : List (Event A))
      → all_allowed es (suspended (asked_early cancelled (proxy external cancellable))) ≡ true
      → Keeps (await_proxy cancelled es again (proxy external cancellable))
  unfolding await_proxy
  await_proxy-Keeps x c false again es ok =
      await_suspend-Keeps es again (proxy x c) ok (suspended-Inv x c false (ground arith))
  await_proxy-Keeps true c true again es ok =
      await_suspend-Keeps es again (asked_early true (proxy true c)) ok
        (suspended-Inv true c true refl)
  await_proxy-Keeps false c true again es ok = (
    asked_early true (proxy false c),
    refl,
    record {
      sound = record {
        order = refl;
        confirmed_once = omega arith;
        asked_first = refl;
        ended = refl;
        begun = refl;
        put_off = refl;
      };
      empty = refl;
      answered = refl;
    },
  )

  -- A task awaits a new portal by untilCBCalled, asked to cancel before it or not; the initiate function
  -- calls the callback, cancels the task and lets it go on in any order, and then the same goes on
  -- after it. The callback is called only when the value before has been taken and while the portal is
  -- there (its assertion against a consumer that does not keep up is so assumed, not shown); only a task
  -- that waits is cancelled; and one that neither waits nor was cancelled awaits a portal of the user's
  -- again. Then no other assertion fails, and in the end what the task has taken, followed by what waits
  -- for it, is what the callback was called with, in order; a task that waits has nothing to take; a
  -- cancellation is confirmed at most once, to a task that was asked to cancel and no longer waits;
  -- and a task that was asked to cancel still waits only through the proxy, which is CancelPending,
  -- or which has called the initiate function, owns the portal and has no cancellation function.
  pub portal-Inv :
      (external cancellable cancelled again : Bool) (es fs : List (Event A))
      → all_allowed es (suspended (asked_early cancelled (proxy external cancellable))) ≡ true
      → holds_of (await_proxy cancelled es again (proxy external cancellable)) (all_allowed fs)
        ≡ true
      → (p : Portal A) × (and_then
            (await_proxy cancelled es again (proxy external cancellable))
            (run fs)
          ≡ some p)
        × Inv p
  portal-Inv x c b again es fs ok well =
      then-Keeps (await_proxy b es again (proxy x c)) (run fs) (await_proxy-Keeps x c b again es ok)
        (λ q e v. run-Keeps fs q (ap (λ o. holds_of o (all_allowed fs)) (sym e) ∙ well) v)
