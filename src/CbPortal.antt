-- ===== src/CbPortal.antt =====
-- corral/CBPortal.h: a portal between a callback and the task that awaits its calls, and the proxy
-- (untilCBCalled) by which a task first awaits it, for one portal. `wakeUp` runs the task at once, up
-- to where it awaits next: whether it awaits the portal again is an argument, `again`.
pub mod Inv
pub mod Moves
pub mod Runs
mod Tests
use corral.Base.{
  ℕ, ◌+◌, Bool, true, false, not, ◌&&◌, ◌==◌, List, [], ◌∷◌, ◌++◌, Option, none, some,
  if◌then◌else◌,
}

-- `CBPortalProxyStatus`
pub data Status : Type 0 where
  not_started scheduled cancel_pending initiated : Status

-- `external` says whether the portal is the user's, `cancellable` whether there is a cancellation
-- function. `parent` says whether `parent_` is set, and `proxied` whether the task awaits the portal
-- through the proxy. `asked` is the cancellation requested of the task; `called` and `delivered` are the
-- arguments of the calls and the results taken, `confirmed` counts the resumptions that complete a
-- cancellation, and `cancel_calls` the calls of the cancellation function.
pub record Portal (A : Type 0) : Type 0 where
  pub external : Bool
  pub cancellable : Bool
  pub value : Option A
  pub parent : Bool
  pub status : Status
  pub proxied : Bool
  pub asked : Bool
  pub called : List A
  pub delivered : List A
  pub confirmed : ℕ
  pub cancel_calls : ℕ

-- The portal when the proxy is constructed.
abbrev pub proxy : {A : Type 0} → Bool → Bool → Portal A
proxy external cancellable = record {
  external = external;
  cancellable = cancellable;
  value = none;
  parent = false;
  status = if external then scheduled else not_started;
  proxied = false;
  asked = false;
  called = [];
  delivered = [];
  confirmed = 0;
  cancel_calls = 0;
}

module _ {A : Type 0} where
  abbrev pub has_value : Option A → Bool
  has_value none = false
  has_value (some v) = true

  -- `await_resume` of the portal or the proxy, and how the task goes on, to await the portal again only
  -- if that outlives the proxy; `none` is the failed assertion.
  abbrev pub await_resume_by : Option A → Bool → Portal A → Option (Portal A)
  await_resume_by none again p = none
  await_resume_by (some v) again p = some (record p {
    value = none;
    delivered = p.delivered ++ v ∷ [];
    proxied = false;
    parent = again && p.external && not p.asked;
  })

  -- The task is resumed: asked to cancel, it takes a result only if `await_must_resume`.
  unfoldable pub resume_task : Bool → Portal A → Option (Portal A)
  resume_task again p =
      if p.asked && not (has_value p.value)
      then some (record p { confirmed = p.confirmed + 1 })
      else await_resume_by p.value again p

  -- `wakeUp`
  unfoldable pub wake_up : Bool → Portal A → Option (Portal A)
  unfolding resume_task
  wake_up again p = if p.parent then resume_task again (record p { parent = false }) else some p

  -- `Callback::operator()`
  unfoldable pub call : A → Bool → Portal A → Option (Portal A)
  unfolding wake_up
  call v again p =
      if has_value p.value
      then none
      else wake_up again (record p { value = some v; called = p.called ++ v ∷ [] })

  -- `CBPortalProxy::await_cancel`
  unfoldable pub proxy_cancel : Status → Bool → Portal A → Option (Portal A)
  unfolding wake_up
  proxy_cancel not_started again p = none
  proxy_cancel scheduled again p = some (record p { status = cancel_pending })
  proxy_cancel cancel_pending again p = some (record p { status = cancel_pending })
  proxy_cancel initiated again p =
      if not p.external && not p.cancellable
      then some p
      else wake_up again (record p { cancel_calls = p.cancel_calls + 1 })

  -- The task is asked to cancel while it awaits.
  unfoldable pub cancel : Bool → Portal A → Option (Portal A)
  unfolding proxy_cancel
  cancel again p =
      let q = record p { asked = true } in
      if p.proxied then proxy_cancel p.status again q else wake_up again q

  -- `CBPortalProxy::await_early_cancel` and its answer.
  unfoldable pub early_cancel : Status → Portal A → Option (Portal A × Bool)
  early_cancel not_started p = if p.external then none else some (record p { asked = true }, true)
  early_cancel scheduled p =
      if p.external then some (record p { asked = true; status = cancel_pending }, false) else none
  early_cancel _ p = none

  -- The task awaits the portal itself.
  unfoldable pub await : Bool → Portal A → Option (Portal A)
  await again p =
      if has_value p.value
      then await_resume_by p.value again p
      else some (record p { parent = true })

-- `CBPortalProxy::await_suspend` notes that the initiate function is to run.
abbrev pub scheduled_from : Status → Status
scheduled_from not_started = scheduled
scheduled_from s = s

-- What happens to a portal.
pub data Event (A : Type 0) : Type 0 where
  calls : A → Bool → Event A
  cancels awaits : Bool → Event A

module _ {A : Type 0} where
  unfoldable pub step : Event A → Portal A → Option (Portal A)
  unfolding call cancel await
  step (calls v again) p = call v again p
  step (cancels again) p = cancel again p
  step (awaits again) p = await again p

  abbrev pub and_then : Option (Portal A) → (Portal A → Option (Portal A)) → Option (Portal A)
  and_then none f = none
  and_then (some p) f = f p

  unfoldable pub run : List (Event A) → Portal A → Option (Portal A)
  unfolding step
  run [] p = some p
  run (e ∷ es) p = and_then (step e p) (run es)

  -- The end of `CBPortalProxy::await_suspend`, unless the proxy is gone.
  unfoldable pub initiated_by : Bool → Status → Portal A → Option (Portal A)
  unfolding proxy_cancel
  initiated_by again cancel_pending p =
      let q = record p { status = initiated } in
      if p.parent then proxy_cancel initiated again q else some q
  initiated_by again _ p = some (record p { status = initiated })

  -- The proxy as `CBPortalProxy::await_suspend` calls the initiate function.
  abbrev pub suspended : Portal A → Portal A
  suspended p = record p { parent = true; proxied = true; status = scheduled_from p.status }

  -- `CBPortalProxy::await_suspend`; the events are what the initiate function does.
  unfoldable pub await_suspend : List (Event A) → Bool → Portal A → Option (Portal A)
  unfolding run initiated_by
  await_suspend es again p =
      and_then (run es (suspended p))
        (λ q. if q.proxied then initiated_by again q.status q else some q)

  -- The task suspends, unless its cancellation skips that.
  abbrev pub unless_skipped : List (Event A) → Bool → Option (Portal A × Bool) → Option (Portal A)
  unless_skipped es again none = none
  unless_skipped es again (some (p, skipped)) = if skipped then some p else await_suspend es again p

  -- A task awaits the proxy, or does so when it is already asked to cancel.
  unfoldable pub await_proxy : Bool → List (Event A) → Bool → Portal A → Option (Portal A)
  unfolding early_cancel await_suspend
  await_proxy false es again p = await_suspend es again p
  await_proxy true es again p = unless_skipped es again (early_cancel p.status p)
