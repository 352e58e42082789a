-- ===== src/Executor/Order.antt =====
-- Executors of one event loop (corral/Executor.h) do not nest the callbacks that they run.
use corral.Base.{ℕ, ◌≡◌, refl, Bool, true, false, ◌||◌, some, ◌==◌, by_true, ==_iff, arith}
use corral.Executor.{Executor, Thread, change}

-- What a call leaves as it was: everything but the lists, the schedules and the log.
pub record Steady (w v : Thread) : Type 0 where
  pub same_current : v.current ≡ w.current
  pub same_running : (j : ℕ) → (v.executors j).running ≡ (w.executors j).running
  pub same_loop : (j : ℕ) → (v.executors j).event_loop ≡ (w.executors j).event_loop
  pub same_active : v.active ≡ w.active
  pub same_nested : v.nested ≡ w.nested
  pub same_broken : v.broken ≡ w.broken

-- All executors have one event loop.
abbrev pub OneLoop : Thread → Type 0
OneLoop w = (i j : ℕ) → (w.executors i).event_loop ≡ (w.executors j).event_loop

-- An executor is current, and runs.
pub record Within (c : ℕ) (w : Thread) : Type 0 where
  pub is_current : w.current ≡ some c
  pub runs : (w.executors c).running ≡ true
  pub one_loop : OneLoop w

pub ==_same : (a b : ℕ) → a ≡ b → (a == b) ≡ true
==_same a b h = (==_iff a b).1 h

pub or-left : (a b : Bool) → a ≡ true → (a || b) ≡ true
or-left a b h = ground arith

pub change-at :
    (e j : ℕ) (f : Executor → Executor) (w : Thread)
    → (j == e) ≡ true
    → (change e f w).executors j ≡ f (w.executors e)
change-at e j f w q = by_true (λ x. x ≡ f (w.executors e)) (w.executors j) q refl

-- What is needed of a loop: within a drain and outside of callbacks, it leaves all but the lists.
abbrev pub Keeps : (ℕ → Thread → Thread) → Type 0
Keeps rounds = (e : ℕ) (w : Thread) → Within e w → w.active ≡ false → Steady w (rounds e w)

-- Where an executor starts to drain.
abbrev begun : ℕ → Thread → Thread
begun e w = record (change e (λ x. record x { running = true }) w) { current = some e }

-- Where it ends.
abbrev ended : ℕ → Thread → Thread → Thread
ended e w v = record (change e (λ x. record x { running = false }) v) { current = w.current }
