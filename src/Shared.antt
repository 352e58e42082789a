-- ===== src/Shared.antt =====
-- corral/Shared.h: one operation that several tasks await. The operation is not part of it and is
-- given by what its awaiter answers; the tasks' awaiters are numbers, and results are not void. What
-- the resumption of one parent does at once to others (as in anyOf of several copies) is an argument:
-- the parents whose awaits it cancels.
pub mod Invoke
pub mod Inv
pub mod Moves
pub mod Runs
pub mod Cancel
pub mod Results
pub mod Early
mod Tests
use corral.Base.{
  ℕ, zero, suc, ◌+◌, Bool, true, false, not, ◌&&◌, ◌||◌, ◌==◌, List, [], ◌∷◌, ◌++◌, Option, none,
  some, length, update, remove, if◌then◌else◌,
}
use corral.Promise.{OnCancel, completes, waits, resumes}

-- The variant `result_`; an exception is a number.
pub data Result (A : Type 0) : Type 0 where
  incomplete cancel_pending : Result A
  value : A → Result A
  exception : ℕ → Result A
  cancelling cancelled : Result A

-- The operation's `await_suspend` goes on, resumes the handle at once, or throws.
pub data OnSuspend : Type 0 where
  suspends continues : OnSuspend
  throws : ℕ → OnSuspend

-- The operation's `await_resume`.
pub data Outcome (A : Type 0) : Type 0 where
  returned : A → Outcome A
  thrown : ℕ → Outcome A

-- What a parent's `await_resume` yields; `fails` is the failed assertion.
pub data Answer (A : Type 0) : Type 0 where
  returns : A → Answer A
  raises : ℕ → Answer A
  nullopt fails : Answer A

-- `waking` is the local list of `invoke`, `caller` the parent that the proxy frame links to,
-- `attached` whether an awaiter's `state_` is set. `woken` has the parents resumed, oldest first;
-- `starts` and `cancels` count the calls of the operation's `await_suspend` and `await_cancel`.
pub record State (A : Type 0) : Type 0 where
  pub result : Result A
  pub parents : List ℕ
  pub waking : List ℕ
  pub caller : ℕ
  pub attached : ℕ → Bool
  pub woken : List ℕ
  pub starts : ℕ
  pub cancels : ℕ

abbrev pub fresh : {A : Type 0} → State A
fresh = record {
  result = incomplete;
  parents = [];
  waking = [];
  caller = 0;
  attached = λ i. false;
  woken = [];
  starts = 0;
  cancels = 0;
}

module _ {A : Type 0} where
  abbrev pub is_incomplete : Result A → Bool
  is_incomplete incomplete = true
  is_incomplete _ = false

  abbrev pub is_pending : Result A → Bool
  is_pending cancel_pending = true
  is_pending _ = false

  abbrev pub is_cancelling : Result A → Bool
  is_cancelling cancelling = true
  is_cancelling _ = false

  abbrev pub is_cancelled : Result A → Bool
  is_cancelled cancelled = true
  is_cancelled _ = false

  -- `closed`: the index is at least that of `Cancelling`.
  abbrev pub closed : State A → Bool
  closed s = is_cancelling s.result || is_cancelled s.result

abbrev pub is_empty : List ℕ → Bool
is_empty [] = true
is_empty (x ∷ xs) = false

abbrev pub contains_one_item : List ℕ → Bool
contains_one_item (x ∷ []) = true
contains_one_item _ = false

-- `front`, or the other number if there is none.
abbrev pub front_or : ℕ → List ℕ → ℕ
front_or c [] = c
front_or c (x ∷ xs) = x

module _ {A : Type 0} where
  -- An awaiter of a shared operation is constructed.
  abbrev pub construct : ℕ → State A → State A
  construct i s = record s { attached = update s.attached i true }

  abbrev pub detach : ℕ → State A → State A
  detach i s = record s { attached = update s.attached i false }

  -- `unlink`, from whichever list the awaiter stands in.
  abbrev pub unlink : ℕ → State A → State A
  unlink i s = record s { parents = remove i s.parents; waking = remove i s.waking }

  -- `State::ready`
  abbrev pub ready : Bool → State A → Bool
  ready r s = not (is_incomplete s.result) || is_empty s.parents && r

  abbrev pub await_ready : ℕ → Bool → State A → Bool
  await_ready i r s = not (s.attached i) || ready r s

  -- `State::earlyCancel`, where the operation's `await_early_cancel` answers `now`.
  unfoldable pub early_cancel : ℕ → Bool → State A → State A × Bool
  early_cancel i now s =
      if is_empty s.parents && is_incomplete s.result
      then (if now
          then (detach i (record s { result = cancelled }), true)
          else (record s { result = cancel_pending }, false))
      else (detach i s, true)

  abbrev pub await_early_cancel : ℕ → Bool → State A → State A × Bool
  await_early_cancel i now s = if s.attached i then early_cancel i now s else (s, true)

  -- The branch of `State::cancel` that drops one of several parents.
  unfoldable pub drop_parent : ℕ → State A → State A
  drop_parent i s =
      let t = detach i (unlink i s) in record t { caller = front_or t.caller t.parents }

  -- The cancellations that come with the resumption of one parent. `parents_` is empty then, so each
  -- drops its parent.
  unfoldable pub drop_each : List ℕ → State A → State A
  unfolding drop_parent
  drop_each [] s = s
  drop_each (i ∷ is) s = drop_each is (drop_parent i s)

  -- `State::mustResume`
  abbrev pub must_resume : Bool → State A → Bool
  must_resume must s = if is_pending s.result then must else not (is_cancelled s.result)

  abbrev pub await_must_resume : ℕ → Bool → State A → Bool
  await_must_resume i must s = if s.attached i then must_resume must s else false

  abbrev pub store : Outcome A → Result A
  store (returned a) = value a
  store (thrown e) = exception e

  -- `State::resultAs` asks the operation's awaiter for the result once.
  abbrev pub fetch : Outcome A → State A → State A
  fetch o s =
      if is_incomplete s.result || is_pending s.result then record s { result = store o } else s

  -- The rest of `resultAs`, for `asOptional` or not.
  abbrev pub answer : Bool → Result A → Answer A
  answer optional (value a) = returns a
  answer optional (exception e) = raises e
  answer optional _ = if optional then nullopt else fails

  unfoldable pub await_resume : ℕ → Bool → Outcome A → State A → State A × Answer A
  await_resume i optional o s =
      if s.attached i then (fetch o s, answer optional (fetch o s).result) else (s, fails)

  -- `State::invoke` learns how a cancellation went.
  abbrev pub settle_cancel : Bool → State A → State A
  settle_cancel must s =
      if is_cancelling s.result
      then record s { result = if must then incomplete else cancelled }
      else s

module _ {A : Type 0} (on_wake : ℕ → List ℕ) where
  -- The loop of `invoke`, with `wakeUp`; the fuel is the number of parents.
  unfoldable pub wake : ℕ → List ℕ → State A → State A
  unfolding drop_each
  wake zero is s = s
  wake (suc n) [] s = s
  wake (suc n) (i ∷ is) s =
      let t = drop_each (on_wake i) (record s { waking = is; woken = s.woken ++ i ∷ [] }) in
      let rest = wake n t.waking t in rest

  -- `State::invoke`
  unfoldable pub invoke : Bool → State A → State A
  unfolding wake
  invoke must s =
      let t = settle_cancel must s in
      wake (length t.parents) t.parents (record t { waking = t.parents; parents = [] })

  -- The operation's `await_suspend` within `State::suspend`.
  unfoldable pub start : OnSuspend → Bool → State A → State A
  unfolding invoke
  start suspends must s = s
  start continues must s = invoke must s
  start (throws e) must s = invoke must (record s { result = exception e })

  -- `State::suspend`
  unfoldable pub suspend : ℕ → OnSuspend → Bool → State A → State A
  unfolding start
  suspend i answers must s =
      let t = record s { parents = s.parents ++ i ∷ [] } in
      if is_empty s.parents
      then start answers must (record t {
        caller = i;
        result = if is_pending s.result then cancelling else s.result;
        starts = s.starts + 1;
      })
      else t

  -- `State::cancel` of the only parent, by the answer of the operation's `await_cancel`.
  unfoldable pub forward_cancel : ℕ → OnCancel → Bool → State A → State A × Bool
  unfolding invoke
  forward_cancel i completes must s = (detach i (unlink i (record s { result = cancelled })), true)
  forward_cancel i waits must s = (s, false)
  forward_cancel i resumes must s = (invoke must s, false)

  -- `State::cancel`
  unfoldable pub cancel : ℕ → OnCancel → Bool → State A → Option (State A × Bool)
  unfolding forward_cancel drop_parent
  cancel i answers must s =
      if contains_one_item s.parents
      then (if front_or 0 s.parents == i
          then some (
              forward_cancel i answers must
                (record s { result = cancelling; cancels = s.cancels + 1 }))
          else none)
      else some (drop_parent i s, true)

  abbrev pub await_cancel : ℕ → OnCancel → Bool → State A → Option (State A × Bool)
  await_cancel i answers must s = if s.attached i then cancel i answers must s else some (s, true)

  -- A task awaits: `await_ready`, and `await_suspend` unless it is ready.
  abbrev pub suspend_unless_ready : ℕ → Bool → OnSuspend → Bool → State A → State A
  suspend_unless_ready i r o m s = if await_ready i r s then s else suspend i o m s

  -- A task of which a cancellation is requested goes on from `await_early_cancel`.
  abbrev pub unless_skipped : ℕ → Bool → OnSuspend → Bool → State A × Bool → State A
  unless_skipped i r o m (s, skipped) = if skipped then s else suspend_unless_ready i r o m s
