-- ===== src/Executor/Capture.antt =====
-- `capture` of an executor (corral/Executor.h), by which a callback has others run before it goes on.
use corral.Base.{
  ℕ, ap, ◌≡◌, refl, sym, subst, ◌∙◌, true, false, not, List, [], ◌∷◌, ◌++◌, append_assoc,
  append-nil, map, if◌then◌else◌, none, some,
}
use corral.Executor.{
  callback, Executor, Thread, change, call_each, drain_by, run_once_by, perform, loop, drain_list,
  capture,
}
use corral.Executor.Order.{change-at, ==_same}
use corral.Executor.Finish.{calls_on, body_of, Has, call_each-Added, perform-Performed}

-- A change of a running executor.
change-Has :
    (e : ℕ) (is : List ℕ) (f : Executor → Executor) (w : Thread)
    → (f (w.executors e)).ready ≡ map callback is
    → (f (w.executors e)).running ≡ true
    → (f (w.executors e)).scheduled ≡ none
    → Has e is (change e f w)
change-Has e is f w l r s =
    let at = change-at e e f w (==_same e e refl) in
    record {
      lists = ap (λ x. x.ready) at ∙ l;
      runs = ap (λ x. x.running) at ∙ r;
      alone = ap (λ x. x.scheduled) at ∙ s;
    }

module _ (e : ℕ) (spawn : ℕ → List ℕ) where
  -- What these callbacks schedule, in order.
  unfoldable pub spawned_by : List ℕ → List ℕ
  spawned_by [] = []
  spawned_by (i ∷ is) = spawn i ++ spawned_by is

  -- These callbacks have run, on an executor with others ready, which still are, before those now
  -- scheduled.
  pub record Captured (js is : List ℕ) (w v : Thread) : Type 0 where
    pub has : Has e (is ++ spawned_by js) v
    pub log : v.ran ≡ w.ran ++ js

  drain_list-Captured :
      (rounds : ℕ → Thread → Thread) (js is : List ℕ) (w : Thread)
      → Has e is w
      → Captured js is w (drain_list (body_of e spawn) rounds (map callback js) w)
  unfolding drain_list spawned_by
  drain_list-Captured rounds [] is w h = record {
    has = subst (λ l. Has e l w) (sym (append-nil is)) h;
    log = sym (append-nil w.ran);
  }
  drain_list-Captured rounds (j ∷ js) is w h =
      let p = perform-Performed e spawn rounds j is w h in
      let v = perform (body_of e spawn) rounds (callback j) w in
      let d = drain_list-Captured rounds js (is ++ spawn j) v p.has in
      record {
        has =
            subst (λ l. Has e l (drain_list (body_of e spawn) rounds (map callback js) v))
              (append_assoc is (spawn j) (spawned_by js)) d.has;
        log = d.log ∙ ap (λ l. l ++ js) p.log ∙ append_assoc w.ran (j ∷ []) js;
      }

  -- A drain within a drain.
  drain_by-Captured :
      (rounds : Thread → Thread) (js is : List ℕ) (w : Thread)
      → Has e is w
      → ((u : Thread) → Has e is u → Captured js is u (rounds u))
      → Captured js is w (drain_by (λ k. rounds) e w)
  unfolding drain_by
  drain_by-Captured rounds js is w h go =
      let u : Thread = record (change e (λ x. record x { running = true }) w) {
        current = some e;
      } in
      let a = change-Has e is (λ x. record x { running = true }) w h.lists refl h.alone in
      let c = go u (record { lists = a.lists; runs = a.runs; alone = a.alone }) in
      let stop : Executor → Executor =
        λ x. record x { running = if not (w.executors e).running then false else x.running } in
      let on : (stop ((rounds u).executors e)).running ≡ true =
        subst (λ b. (if not b then false else ((rounds u).executors e).running) ≡ true) (sym h.runs)
          c.has.runs in
      let d = change-Has e (is ++ spawned_by js) stop (rounds u) c.has.lists on c.has.alone in
      record { has = record { lists = d.lists; runs = d.runs; alone = d.alone }; log = c.log }

  -- On an executor that runs and waits for no other one, and whose callbacks schedule on it alone, what
  -- a callback captures has run when `capture` returns, once and in the order in which it was scheduled;
  -- what the captured callbacks schedule in turn has not, but is ready behind what was ready before; and
  -- the executor still runs, with the same one current as before.
  pub capture_lem :
      (fuel : ℕ) (js is : List ℕ) (w : Thread)
      → Has e is w
      → Captured js is w (capture (body_of e spawn) fuel e (calls_on e js) w)
        × ((capture (body_of e spawn) fuel e (calls_on e js) w).current ≡ w.current)
  unfolding capture drain_by
  capture_lem fuel js is w h =
      let once = run_once_by (loop (body_of e spawn) fuel) in
      let start : Thread = change e (λ x. record x { ready = [] }) w in
      let a = change-Has e [] (λ x. record x { ready = [] }) w refl h.runs h.alone in
      let b = call_each-Added once e js [] start a in
      let v : Thread = call_each once (calls_on e js) start in
      let restored : Thread = change e (λ x. record x { ready = (w.executors e).ready }) v in
      let c =
        change-Has e is (λ x. record x { ready = (w.executors e).ready }) v h.lists b.has.runs
          b.has.alone in
      let rounds = drain_list (body_of e spawn) (loop (body_of e spawn) fuel) in
      let d = drain_by-Captured (rounds (v.executors e).ready) js is restored c (λ u g.
        subst (λ ts. Captured js is u (rounds ts u)) (sym b.has.lists)
          (drain_list-Captured (loop (body_of e spawn) fuel) js is u g)) in
      (record { has = d.has; log = d.log ∙ ap (λ l. l ++ js) b.same_ran }, b.same_current)
