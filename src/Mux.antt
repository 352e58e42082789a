-- ===== src/Mux.antt =====
-- corral/detail/wait.h: the machinery of anyOf, mostOf and allOf. `MuxHelper` is one awaitable of a
-- combiner with its state, `MuxBase` counts the awaitables that are done and resumes the parent.
-- The awaitables are not part of the library: each one is given by what its methods answer.
pub mod Children
pub mod Cancels
pub mod Count
pub mod Resumption
pub mod Early
pub mod Outside
pub mod Immediate
mod Tests
use corral.Base.{
  ℕ, zero, suc, ◌+◌, ◌-◌, Bool, true, false, not, ◌&&◌, ◌||◌, Option, none, some, List, [], ◌∷◌,
  if◌then◌else◌, ◌==◌, leb, length, get_elem?,
}

-- `MuxHelper::State`
pub data State : Type 0 where
  not_started cancellation_pending running cancelling cancelled ready succeeded failed : State

-- What `await_cancel` does: returns true, returns false and leaves the awaitable running, or
-- resumes the handle before it returns false.
pub data OnCancel : Type 0 where
  completes waits resumes : OnCancel

-- What the methods of an awaitable answer. `suspends` is false if `await_suspend` resumes the
-- handle at once, `fails` if `await_resume` yields an error.
pub record Awaiter : Type 0 where
  pub await_ready : Bool
  pub skippable : Bool
  pub await_early_cancel : Bool
  pub await_cancel : OnCancel
  pub await_must_resume : Bool
  pub suspends : Bool
  pub fails : Bool

-- `MuxHelper`
pub record Child : Type 0 where
  pub state : State
  pub awaiter : Awaiter

-- `MuxBase` with its children. `resumed` counts the calls of `parent_.resume()`; `broken` says that
-- code which is marked unreachable was reached.
pub record Mux : Type 0 where
  pub min_ready : ℕ
  pub count : ℕ
  pub error : Bool
  pub resumed : ℕ
  pub broken : Bool
  pub children : List Child

abbrev pub size : Mux → ℕ
size m = length m.children

unfoldable pub set : ℕ → State → List Child → List Child
set i s [] = []
set zero s (c ∷ cs) = record c { state = s } ∷ cs
set (suc i) s (c ∷ cs) = c ∷ set i s cs

abbrev pub is_cancelled : State → Bool
is_cancelled cancelled = true
is_cancelled _ = false

-- Whether the child at an index is cancelled.
unfoldable pub cancelled_at : ℕ → List Child → Bool
cancelled_at i [] = false
cancelled_at zero (c ∷ cs) = is_cancelled c.state
cancelled_at (suc i) (c ∷ cs) = cancelled_at i cs

abbrev pub set_state : ℕ → State → Mux → Mux
set_state i s m = record m { children = set i s m.children }

abbrev pub unreachable : Mux → Mux
unreachable m = record m { broken = true }

-- `MuxHelper::reportResult`; `invoke` is that of the mux, with whether there is an error.
unfoldable pub report_result : (Bool → Mux → Mux) → ℕ → Awaiter → Mux → Mux
report_result invoke i a m = invoke a.fails (set_state i (if a.fails then failed else succeeded) m)

-- `MuxHelper::invoke`, in a given state.
unfoldable pub child_invoke : (Bool → Mux → Mux) → ℕ → Awaiter → State → Mux → Mux
unfolding report_result
child_invoke invoke i a cancelling m =
    if not a.await_must_resume
    then invoke false (set_state i cancelled m)
    else report_result invoke i a m
child_invoke invoke i a running m = report_result invoke i a m
child_invoke invoke i a ready m = report_result invoke i a m
child_invoke invoke i a _ m = unreachable m

-- The answer of `await_cancel` to a child that was running.
abbrev pub cancel_running : (Bool → Mux → Mux) → ℕ → Awaiter → OnCancel → Mux → Mux
cancel_running invoke i a completes m = invoke false (set_state i cancelled m)
cancel_running invoke i a waits m = m
cancel_running invoke i a resumes m = child_invoke invoke i a cancelling m

-- `MuxHelper::cancel`, of a child that is bound to its mux.
unfoldable pub cancel_from : (Bool → Mux → Mux) → ℕ → Awaiter → State → Mux → Mux
unfolding child_invoke
cancel_from invoke i a not_started m =
    if a.await_early_cancel
    then invoke false (set_state i cancelled m)
    else set_state i cancellation_pending m
cancel_from invoke i a running m =
    cancel_running invoke i a a.await_cancel (set_state i cancelling m)
cancel_from invoke i a _ m = m

abbrev pub at_child : ℕ → (Awaiter → State → Mux → Mux) → Mux → Mux
at_child i f m = elim (get_elem? m.children i) [ none ↦ m | some c ↦ f c.awaiter c.state m ]

unfoldable pub cancel : (Bool → Mux → Mux) → ℕ → Mux → Mux
unfolding cancel_from
cancel invoke i m = at_child i (cancel_from invoke i) m

-- `internalCancel`: every child from `i` on, of which there are `k`.
unfoldable pub internal_cancel : (Bool → Mux → Mux) → ℕ → ℕ → Mux → Mux
unfolding cancel
internal_cancel invoke i zero m = m
internal_cancel invoke i (suc k) m = internal_cancel invoke (i + 1) k (cancel invoke i m)

abbrev pub resume_if_done : Mux → Mux
resume_if_done m = if m.count == size m then record m { resumed = m.resumed + 1 } else m

-- `MuxBase::invoke`. A child that is cancelled within calls it again; each such call finds one more
-- child done, so the number of children bounds the depth.
unfoldable pub invoke : ℕ → Bool → Mux → Mux
unfolding internal_cancel
invoke zero err m = m
invoke (suc fuel) err m =
    let first_fail = err && not m.error in
    let n = record m { count = m.count + 1; error = m.error || err } in
    let cancelled_rest =
      internal_cancel (invoke fuel) 0 (size m) (record n { count = n.count - 1 }) in
    if n.count == size m
    then record n { resumed = n.resumed + 1 }
    else if first_fail || n.count == m.min_ready
    then resume_if_done (record cancelled_rest { count = cancelled_rest.count + 1 })
    else n

-- Enough fuel for any mux.
abbrev pub invoke_all : Bool → Mux → Mux
invoke_all err m = invoke (size m + 1) err m

-- A running child's handle is resumed: it has completed.
unfoldable pub complete : ℕ → Mux → Mux
unfolding child_invoke
complete i m = at_child i (child_invoke invoke_all i) m

-- `MuxHelper::kickOff`
unfoldable pub kick_off : ℕ → Awaiter → State → Mux → Mux
unfolding child_invoke
kick_off i a s m =
    let started : State = elim s [ cancellation_pending ↦ cancelling | _ ↦ running ] in
    let n = set_state i started m in
    if a.await_ready || not a.suspends then child_invoke invoke_all i a started n else n

-- `MuxHelper::suspend`
unfoldable pub suspend_from : ℕ → Awaiter → State → Mux → Mux
unfolding kick_off
suspend_from i a not_started m = kick_off i a not_started m
suspend_from i a cancellation_pending m = kick_off i a cancellation_pending m
suspend_from i a cancelled m = invoke_all false m
suspend_from i a _ m = unreachable m

-- `await_suspend`: every child from `i` on, of which there are `k`, once all are bound.
unfoldable pub suspend : ℕ → ℕ → Mux → Mux
unfolding suspend_from
suspend i zero m = m
suspend i (suc k) m = suspend (i + 1) k (at_child i (suspend_from i) m)

abbrev pub start_all : List Awaiter → List Child
start_all [] = []
start_all (a ∷ as_) = record { state = not_started; awaiter = a } ∷ start_all as_

-- A new combiner: of `anyOf` if `min_ready` is 1, of `mostOf` and `allOf` if it is the number of awaitables.
abbrev pub fresh : ℕ → List Awaiter → Mux
fresh min_ready as_ = record {
  min_ready = min_ready;
  count = 0;
  error = false;
  resumed = 0;
  broken = false;
  children = start_all as_;
}

-- `await_suspend`: whether the parent is suspended, and the combiner with its children started.
abbrev pub await_suspend : Mux → Bool × Mux
await_suspend m = (not (size m == 0), suspend 0 (size m) m)

-- What `MuxHelper::cancel` returns, by the state before and by whether the child is cancelled after.
abbrev pub cancel_answer : Awaiter → State → Bool → Bool
cancel_answer a not_started after = a.await_early_cancel
cancel_answer a running after = after
cancel_answer a cancelled after = true
cancel_answer a _ after = false

-- `internalCancel`, with what it returns: whether each `cancel` returned true.
unfoldable pub cancel_all : (Bool → Mux → Mux) → ℕ → ℕ → Mux → Bool × Mux
unfolding cancel cancelled_at
cancel_all inv i zero m = (true, m)
cancel_all inv i (suc k) m =
    let n = cancel inv i m in
    let one : Bool = elim (get_elem? m.children i) [
      | none ↦ true
      | some c ↦ cancel_answer c.awaiter c.state (cancelled_at i n.children)
    ] in
    let (others, end) = cancel_all inv (i + 1) k n in (one && others, end)

-- `await_cancel`: its answer, and the combiner after it. While the children are cancelled a handle
-- that does nothing stands in for the parent's; `h.resume()` resumes the parent.
unfoldable pub await_cancel : Mux → Bool × Mux
unfolding cancel_all
await_cancel m =
    let (all_cancelled, n) = cancel_all invoke_all 0 (size m) m in
    let restored = record n { resumed = m.resumed } in
    if all_cancelled
    then (true, restored)
    else if restored.count == size restored
    then (false, record restored { resumed = restored.resumed + 1 })
    else (false, restored)
