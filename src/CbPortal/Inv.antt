-- ===== src/CbPortal/Inv.antt =====
-- The invariant of a portal and what keeps it (corral/CBPortal.h).
use corral.Base.{
  ◌+◌, ◌≤◌, ◌≡◌, Bool, true, false, not, ◌&&◌, ◌||◌, ◌==◌, List, [], ◌∷◌, ◌++◌, Option, none, some,
  arith,
}
use corral.CbPortal.{Status, not_started, cancel_pending, initiated, Portal, has_value}

abbrev pub is_not_started : Status → Bool
is_not_started not_started = true
is_not_started _ = false

abbrev pub is_cancel_pending : Status → Bool
is_cancel_pending cancel_pending = true
is_cancel_pending _ = false

abbrev pub is_initiated : Status → Bool
is_initiated initiated = true
is_initiated _ = false

module _ {A : Type 0} where
  -- The initiate function is still running, or there is no way to cancel.
  abbrev pub is_put_off : Portal A → Bool
  is_put_off p =
      p.proxied
      && (is_cancel_pending p.status
          || is_initiated p.status && not p.external && not p.cancellable)

  abbrev pub to_list : Option A → List A
  to_list none = []
  to_list (some v) = v ∷ []

-- What the task has taken, and then what waits for it, is what the callback was called with. A
-- cancellation is confirmed at most once, for a task that was asked to cancel, and then the task does
-- not wait.
pub record Sound {A : Type 0} (p : Portal A) : Type 0 where
  pub order : p.called ≡ p.delivered ++ to_list p.value
  pub confirmed_once : p.confirmed ≤ 1
  pub asked_first : (p.confirmed == 0 || p.asked) ≡ true
  pub ended : (p.confirmed == 0 || not p.parent) ≡ true
  pub begun : (p.proxied && is_not_started p.status) ≡ false
  pub put_off : (p.proxied && is_cancel_pending p.status && not p.asked) ≡ false

-- And a task that waits has nothing to take, and if it was asked to cancel, that is put off.
pub record Inv {A : Type 0} (p : Portal A) : Type 0 where
  pub sound : Sound p
  pub empty : (p.parent && has_value p.value) ≡ false
  pub answered : (p.parent && p.asked && not (is_put_off p)) ≡ false

module _ {A : Type 0} where
  -- Something went well and leaves the invariant.
  abbrev pub Keeps : Option (Portal A) → Type 0
  Keeps o = (q : Portal A) × (o ≡ some q) × Inv q

  pub unset-Sound : (p : Portal A) → Sound p → Sound (record p { parent = false })
  unset-Sound p v = record {
    order = v.order;
    confirmed_once = v.confirmed_once;
    asked_first = v.asked_first;
    ended = ground arith;
    begun = v.begun;
    put_off = v.put_off;
  }

  pub asked-Sound : (p : Portal A) → Sound p → Sound (record p { asked = true })
  asked-Sound p v = record {
    order = v.order;
    confirmed_once = v.confirmed_once;
    asked_first = ground arith;
    ended = v.ended;
    begun = v.begun;
    put_off = ground arith;
  }

  -- The portal with another status.
  pub status-Sound :
      (g : Status) (p : Portal A)
      → is_not_started g ≡ false
      → (is_cancel_pending g && not p.asked) ≡ false
      → Sound p
      → Sound (record p { status = g })
  status-Sound g p e f v = record {
    order = v.order;
    confirmed_once = v.confirmed_once;
    asked_first = v.asked_first;
    ended = v.ended;
    begun = ground (arith, e);
    put_off = ground (arith, f);
  }

  pub counted-Sound :
      (p : Portal A) → Sound p → Sound (record p { cancel_calls = p.cancel_calls + 1 })
  counted-Sound p v = record {
    order = v.order;
    confirmed_once = v.confirmed_once;
    asked_first = v.asked_first;
    ended = v.ended;
    begun = v.begun;
    put_off = v.put_off;
  }
