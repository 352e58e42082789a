-- ===== src/Value.antt =====
-- corral/Value.h: a stored value, and the awaiters that wait for it to satisfy a predicate or for a
-- change of it that does. `parked` has the awaiters that wait, in order, `resumed` those whose handle
-- was resumed, each with the result that it will yield.
pub mod Laws
pub mod Runs
mod Tests
use corral.Base.{ℕ, Bool, true, false, not, List, [], ◌∷◌, ◌++◌, if◌then◌else◌, ◌==◌}

-- What an awaiter waits for: `UntilMatches`, the awaiter of `Comparison`, and `UntilChanged`, each
-- with its `fn_`.
pub data Watch (A : Type 0) : Type 0 where
  until_matches : (A → Bool) → Watch A
  comparison : (A → Bool) → Watch A
  until_changed : (A → A → Bool) → Watch A

-- `result_`: nothing yet, a value, or a pair of values.
pub data Result (A : Type 0) : Type 0 where
  nothing : Result A
  one : A → Result A
  pair : A → A → Result A

pub record Awaiter (A : Type 0) : Type 0 where
  pub address : ℕ
  pub watch : Watch A
  pub result : Result A

pub record Value (A : Type 0) : Type 0 where
  pub value : A
  pub parked : List (Awaiter A)
  pub resumed : List (Awaiter A)

module _ {A : Type 0} where
  abbrev pub holding : A → Value A
  holding x = record { value = x; parked = []; resumed = [] }

  -- The constructors of the awaiters: only `UntilMatches` looks at the value.
  unfoldable pub initial_result : Watch A → A → Result A
  initial_result (until_matches fn) x = if fn x then one x else nothing
  initial_result (comparison fn) x = nothing
  initial_result (until_changed fn) x = nothing

  abbrev pub construct : ℕ → Watch A → Value A → Awaiter A
  construct i w v = record { address = i; watch = w; result = initial_result w v.value }

  abbrev pub has_value : Result A → Bool
  has_value nothing = false
  has_value (one x) = true
  has_value (pair x y) = true

  abbrev pub ready : Watch A → Result A → A → Bool
  ready (until_matches fn) r x = has_value r
  ready (comparison fn) r x = fn x
  ready (until_changed fn) r x = false

  abbrev pub await_ready : Awaiter A → Value A → Bool
  await_ready a v = ready a.watch a.result v.value

  abbrev pub park : Awaiter A → Value A → Value A
  park a v = record v { parked = v.parked ++ a ∷ [] }

  abbrev pub await_suspend : Awaiter A → Value A → Value A
  await_suspend a v = park a v

  -- The list without the awaiter at an address: `unlink`.
  unfoldable pub without : ℕ → List (Awaiter A) → List (Awaiter A)
  without i [] = []
  without i (a ∷ as_) = let rest = without i as_ in if a.address == i then rest else a ∷ rest

  abbrev pub await_cancel : ℕ → Value A → Value A
  await_cancel i v = record v { parked = without i v.parked }

  -- `matches`: whether the awaiter is to be resumed, and its result.
  unfoldable pub matches : Watch A → A → A → Result A → Bool × Result A
  matches (until_matches fn) from to r = if fn to then (true, one to) else (false, r)
  matches (comparison fn) from to r = (fn to, r)
  matches (until_changed fn) from to r = if fn from to then (true, pair from to) else (false, r)

  unfoldable pub on_changed : Awaiter A → A → A → Value A → Value A
  unfolding matches
  on_changed a from to v =
      let (hit, result) = matches a.watch from to a.result in
      let b = record a { result = result } in
      if hit then record v { resumed = v.resumed ++ b ∷ [] } else park b v

  -- The loop of `modify`, over the awaiters that were parked before.
  unfoldable pub change_each : List (Awaiter A) → A → A → Value A → Value A
  unfolding on_changed
  change_each [] from to v = v
  change_each (a ∷ as_) from to v = change_each as_ from to (on_changed a from to v)

  -- `modify`: what it returns, and the value after it.
  unfoldable pub modify : (A → A) → Value A → A × Value A
  unfolding change_each
  modify fn v =
      let value = fn v.value in
      (value, change_each v.parked v.value value (record v { value = value; parked = [] }))

  abbrev pub set : A → Value A → Value A
  set x v = (modify (λ _. x) v).1

  -- The operators: `++` and `--` before the value and after it, and `+=` and its like, given what
  -- they do to a value.
  abbrev pub prefix : (A → A) → Value A → A × Value A
  prefix op v = modify op v

  abbrev pub postfix : (A → A) → Value A → A × Value A
  postfix op v = (v.value, (modify op v).1)

  abbrev pub assign_by : (A → A → A) → A → Value A → A × Value A
  assign_by op rhs v = modify (λ x. op x rhs) v
