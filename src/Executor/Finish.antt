-- ===== src/Executor/Finish.antt =====
-- One executor (corral/Executor.h) runs its callbacks in the order in which they were scheduled, and
-- comes to an end.
use mathlib.Core.List.{map-append}
use corral.Base.{
  ℕ, zero, suc, ap, ◌+◌, ◌≤◌, ◌<◌, ◌≡◌, refl, sym, subst, ◌∙◌, true, false, not, ◌||◌, Option, none,
  some, List, [], ◌∷◌, ◌++◌, map, append_assoc, append-nil, if◌then◌else◌, ◌==◌, by_true, by_false,
  arith,
}
use corral.Executor.{
  Task, callback, Executor, Thread, is_some, change, schedule, enlist, run_soon, call_each,
  drain_by, run_once_by, perform, round, loop, run,
}
use corral.Executor.Order.{change-at, or-left, ==_same}

-- The calls of callbacks that all go to one executor.
abbrev pub calls_on : ℕ → List ℕ → List (ℕ × ℕ)
calls_on e js = map (λ j. (e, j)) js

-- The callbacks that are run, in order, of those that are ready and those that they schedule: first in,
-- first out, for as many as there is fuel.
unfoldable pub in_order : (ℕ → List ℕ) → ℕ → List ℕ → List ℕ
in_order spawn zero is = []
in_order spawn (suc fuel) [] = []
in_order spawn (suc fuel) (i ∷ is) = i ∷ in_order spawn fuel (is ++ spawn i)

unfoldable pub weights : (ℕ → ℕ) → List ℕ → ℕ
weights weight [] = 0
weights weight (i ∷ is) = weight i + weights weight is

weights-append :
    (weight : ℕ → ℕ) (is js : List ℕ)
    → weights weight (is ++ js) ≡ weights weight is + weights weight js
unfolding weights
weights-append weight [] js = omega arith
weights-append weight (i ∷ is) js = omega (arith, weights-append weight is js)

-- An executor runs, has these callbacks ready, and waits for no other one.
pub record Has (e : ℕ) (is : List ℕ) (w : Thread) : Type 0 where
  pub lists : (w.executors e).ready ≡ map callback is
  pub runs : (w.executors e).running ≡ true
  pub alone : (w.executors e).scheduled ≡ none

-- A change that sets the list.
relist-Has :
    (e : ℕ) (is : List ℕ) (ts : List Task) (w : Thread)
    → ts ≡ map callback is
    → (w.executors e).running ≡ true
    → (w.executors e).scheduled ≡ none
    → Has e is (change e (λ x. record x { ready = ts }) w)
relist-Has e is ts w l r s =
    let at = change-at e e (λ x. record x { ready = ts }) w (==_same e e refl) in
    record {
      lists = ap (λ x. x.ready) at ∙ l;
      runs = ap (λ x. x.running) at ∙ r;
      alone = ap (λ x. x.scheduled) at ∙ s;
    }

schedule-Has :
    (e i : ℕ) {is : List ℕ} (w : Thread)
    → Has e is w
    → Has e (is ++ i ∷ []) (schedule e (callback i) w)
schedule-Has e i {is} w h =
    relist-Has e (is ++ i ∷ []) ((w.executors e).ready ++ callback i ∷ []) w
      (ap (λ ts. ts ++ callback i ∷ []) h.lists ∙ sym (map-append callback is (i ∷ []))) h.runs
      h.alone

-- What a running executor's callback schedules on it.
pub record Added (e : ℕ) (is : List ℕ) (w v : Thread) : Type 0 where
  pub has : Has e is v
  pub same_ran : v.ran ≡ w.ran
  pub same_current : v.current ≡ w.current

pub call_each-Added :
    (once : ℕ → Thread → Thread) (e : ℕ) (js is : List ℕ) (w : Thread)
    → Has e is w
    → Added e (is ++ js) w (call_each once (calls_on e js) w)
unfolding call_each run_soon
call_each-Added once e [] is w h = record {
  has = rw (append-nil is) h;
  same_ran = refl;
  same_current = refl;
}
call_each-Added once e (j ∷ js) is w h =
    let u : Thread = schedule e (callback j) w in
    let a = schedule-Has e j w h in
    by_true (λ v. Added e (is ++ j ∷ js) w (call_each once (calls_on e js) v)) _
      (or-left _ _ a.runs)
      (let r = call_each-Added once e js (is ++ j ∷ []) u a in
        record {
          has = rw (append_assoc is (j ∷ []) js) at r.has;
          same_ran = r.same_ran;
          same_current = r.same_current;
        })

module _ (e : ℕ) (spawn : ℕ → List ℕ) where
  -- Each callback schedules callbacks on one executor.
  abbrev pub body_of : ℕ → List (ℕ × ℕ)
  body_of i = calls_on e (spawn i)

  -- A drain of this executor, from one round on, runs these callbacks and leaves none.
  record Drained (fuel : ℕ) (is : List ℕ) (w v : Thread) : Type 0 where
    pub left : Has e [] v
    pub log : v.ran ≡ w.ran ++ in_order spawn fuel is

  pub record Performed (i : ℕ) (is : List ℕ) (w v : Thread) : Type 0 where
    pub has : Has e (is ++ spawn i) v
    pub log : v.ran ≡ w.ran ++ i ∷ []

  pub perform-Performed :
      (rounds : ℕ → Thread → Thread) (i : ℕ) (is : List ℕ) (w : Thread)
      → Has e is w
      → Performed i is w (perform body_of rounds (callback i) w)
  unfolding perform
  perform-Performed rounds i is w h =
      let u : Thread = record w {
        active = true;
        nested = w.nested || w.active;
        ran = w.ran ++ i ∷ [];
      } in
      let a =
        call_each-Added (run_once_by rounds) e (spawn i) is u
          (record { lists = h.lists; runs = h.runs; alone = h.alone }) in
      record {
        has = record { lists = a.has.lists; runs = a.has.runs; alone = a.has.alone };
        log = a.same_ran;
      }

  lighter :
      (weight : ℕ → ℕ) (fuel i : ℕ) (is : List ℕ)
      → weights weight (spawn i) < weight i
      → weights weight (i ∷ is) ≤ suc fuel
      → weights weight (is ++ spawn i) ≤ fuel
  unfolding weights
  lighter weight fuel i is falls enough =
      omega (arith, weights-append weight is (spawn i), falls, enough)

  nothing_left :
      (weight : ℕ → ℕ) (i : ℕ) (is : List ℕ)
      → weights weight (spawn i) < weight i
      → 0 < weights weight (i ∷ is)
  unfolding weights
  nothing_left weight i is falls = omega (arith, falls)

  no_fuel : {n : ℕ} → 0 < n → n ≤ 0 → ⊥
  no_fuel some_left none_left = omega (arith, some_left, none_left)

  loop-Drained :
      (weight : ℕ → ℕ)
      → ((i : ℕ) → weights weight (spawn i) < weight i)
      → (fuel : ℕ) (is : List ℕ) (w : Thread) → Has e is w
      → weights weight is ≤ fuel
      → Drained fuel is w (loop body_of fuel e w)
  unfolding loop round in_order
  loop-Drained weight falls zero [] w h enough = record { left = h; log = sym (append-nil w.ran) }
  loop-Drained weight falls zero (i ∷ is) w h enough =
      absurd (no_fuel (nothing_left weight i is (falls i)) enough)
  loop-Drained weight falls (suc fuel) [] w h enough =
      subst (λ ts. Drained (suc fuel) [] w (round body_of (loop body_of fuel) e ts w)) (sym h.lists)
        (record { left = h; log = sym (append-nil w.ran) })
  loop-Drained weight falls (suc fuel) (i ∷ is) w h enough =
      let u : Thread = change e (λ x. record x { ready = map callback is }) w in
      let p =
        perform-Performed (loop body_of fuel) i is u
          (relist-Has e is (map callback is) w refl h.runs h.alone) in
      let v : Thread = perform body_of (loop body_of fuel) (callback i) u in
      let d =
        loop-Drained weight falls fuel (is ++ spawn i) v p.has
          (lighter weight fuel i is (falls i) enough) in
      subst (λ ts. Drained (suc fuel) (i ∷ is) w (round body_of (loop body_of fuel) e ts w))
        (sym h.lists)
        (by_true (Drained (suc fuel) (i ∷ is) w) w h.runs (record {
          left = d.left;
          log =
              d.log
              ∙ ap (λ l. l ++ in_order spawn fuel (is ++ spawn i)) p.log
              ∙ append_assoc w.ran (i ∷ []) (in_order spawn fuel (is ++ spawn i));
        }))

  in_order-enough :
      (weight : ℕ → ℕ)
      → ((i : ℕ) → weights weight (spawn i) < weight i)
      → (fuel more : ℕ) (is : List ℕ) → weights weight is ≤ fuel
      → weights weight is ≤ more
      → in_order spawn fuel is ≡ in_order spawn more is
  unfolding in_order
  in_order-enough weight falls zero zero is a b = refl
  in_order-enough weight falls zero (suc more) [] a b = refl
  in_order-enough weight falls (suc fuel) zero [] a b = refl
  in_order-enough weight falls (suc fuel) (suc more) [] a b = refl
  in_order-enough weight falls zero (suc more) (i ∷ is) a b =
      absurd (no_fuel (nothing_left weight i is (falls i)) a)
  in_order-enough weight falls (suc fuel) zero (i ∷ is) a b =
      absurd (no_fuel (nothing_left weight i is (falls i)) b)
  in_order-enough weight falls (suc fuel) (suc more) (i ∷ is) a b =
      ap (λ l. i ∷ l)
        (in_order-enough weight falls fuel more (is ++ spawn i)
          (lighter weight fuel i is (falls i) a) (lighter weight more i is (falls i) b))

  -- No executor is current, and this one has nothing to do.
  pub record Idle (w : Thread) : Type 0 where
    pub none_current : w.current ≡ none
    pub nothing_ready : (w.executors e).ready ≡ []
    pub stopped : (w.executors e).running ≡ false
    pub unscheduled : (w.executors e).scheduled ≡ none

  -- It has run these callbacks, and is idle again.
  pub record Finished (is : List ℕ) (w v : Thread) : Type 0 where
    pub idle : Idle v
    pub ran_all : v.ran ≡ w.ran ++ is

  -- A drain that finds the executor stopped.
  drain-Finished :
      (weight : ℕ → ℕ)
      → ((i : ℕ) → weights weight (spawn i) < weight i)
      → (fuel : ℕ) (is : List ℕ) (w : Thread) → w.current ≡ none
      → (w.executors e).ready ≡ map callback is
      → (w.executors e).running ≡ false
      → (w.executors e).scheduled ≡ none
      → weights weight is ≤ fuel
      → Finished (in_order spawn fuel is) w (drain_by (loop body_of fuel) e w)
  unfolding drain_by
  drain-Finished weight falls fuel is w free l off s enough =
      let at = change-at e e (λ x. record x { running = true }) w (==_same e e refl) in
      let u : Thread = record (change e (λ x. record x { running = true }) w) {
        current = some e;
      } in
      let d =
        loop-Drained weight falls fuel is u
          (record {
            lists = ap (λ x. x.ready) at ∙ l;
            runs = ap (λ x. x.running) at;
            alone = ap (λ x. x.scheduled) at ∙ s;
          })
          enough in
      let v : Thread = loop body_of fuel e u in
      let end = change-at e e (λ x. record x { running = false }) v (==_same e e refl) in
      subst
        (λ b.
          Finished (in_order spawn fuel is) w
            (record (change e (λ x. record x { running = if not b then false else x.running }) v) {
              current = w.current;
            }))
        (sym off)
        (record {
          idle = record {
            none_current = free;
            nothing_ready = ap (λ x. x.ready) end ∙ d.left.lists;
            stopped = ap (λ x. x.running) end;
            unscheduled = ap (λ x. x.scheduled) end ∙ d.left.alone;
          };
          ran_all = d.log;
        })

  -- When an idle executor is to run a callback soon, whatever callbacks that one and those it schedules
  -- in turn schedule on it, if each one has more weight than those that it schedules have together, then
  -- the executor runs it at once, comes to an end within as many rounds as it weighs, and is idle again.
  -- It has run each callback once and in the order in which they were scheduled.
  pub run-Finished :
      (weight : ℕ → ℕ)
      → ((i : ℕ) → weights weight (spawn i) < weight i)
      → (fuel i : ℕ) (w : Thread) → Idle w
      → weight i ≤ fuel
      → Finished (in_order spawn (weight i) (i ∷ [])) w (run body_of fuel e i w)
  unfolding run_soon run_once_by weights
  run-Finished weight falls fuel i w h enough =
      let total : weights weight (i ∷ []) ≤ fuel = omega (arith, enough) in
      let whole : weights weight (i ∷ []) ≤ weight i = omega arith in
      let add : Executor → Executor = λ x. record x { ready = x.ready ++ callback i ∷ [] } in
      let u : Thread = change e add w in
      let at = change-at e e add w (==_same e e refl) in
      let off : (u.executors e).running ≡ false = ap (λ x. x.running) at ∙ h.stopped in
      let idle : ((u.executors e).running || is_some (u.executors e).scheduled) ≡ false =
        ap (λ x. x.running || is_some x.scheduled) at
        ∙ ap (λ b. b || is_some (w.executors e).scheduled) h.stopped
        ∙ ap is_some h.unscheduled in
      let v : Thread = change e (λ x. record x { scheduled = none }) u in
      let at' = change-at e e (λ x. record x { scheduled = none }) u (==_same e e refl) in
      let r =
        drain-Finished weight falls fuel (i ∷ []) v h.none_current
          (ap (λ x. x.ready) at'
            ∙ ap (λ x. x.ready) at
            ∙ ap (λ ts. ts ++ callback i ∷ []) h.nothing_ready)
          (ap (λ x. x.running) at' ∙ off) (ap (λ x. x.scheduled) at') total in
      let P : Thread → Type 0 = Finished (in_order spawn (weight i) (i ∷ [])) w in
      by_false P u idle (
        subst (λ o. P (soon_from o)) (sym h.none_current)
          (by_true P v (ap not off) (
            subst (λ is. Finished is w (drain_by (loop body_of fuel) e v))
              (in_order-enough weight falls fuel (weight i) (i ∷ []) total whole)
              (record { idle = r.idle; ran_all = r.ran_all }))))
    where
      soon_from : Option ℕ → Thread
      soon_from none = run_once_by (loop body_of fuel) e (schedule e (callback i) w)
      soon_from (some d) =
          let u : Thread = schedule e (callback i) w in
          if (u.executors d).event_loop == (u.executors e).event_loop
          then enlist d e u
          else run_once_by (loop body_of fuel) e u
