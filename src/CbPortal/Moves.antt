-- ===== src/CbPortal/Moves.antt =====
-- How a portal and its proxy keep the invariant (corral/CBPortal.h).
use corral.Base.{
  ◌+◌, ◌≡◌, refl, sym, ◌∙◌, ap, Bool, true, false, not, ◌&&◌, ◌||◌, [], ◌∷◌, ◌++◌, append-nil,
  Option, none, some, if◌then◌else◌, Bool-cases, inl, inr, arith,
}
use corral.CbPortal.{
  Status, not_started, scheduled, cancel_pending, initiated, Portal, has_value, await_resume_by,
  resume_task, wake_up, call, proxy_cancel, cancel, await,
}
use corral.CbPortal.Inv.{
  is_not_started, is_initiated, to_list, Sound, Inv, Keeps, unset-Sound, asked-Sound, status-Sound,
  counted-Sound,
}

module _ {A : Type 0} where
  pub take-Keeps :
      (o : Option A) (again : Bool) (p : Portal A)
      → p.value ≡ o
      → has_value o ≡ true
      → p.confirmed ≡ 0
      → Sound p
      → Keeps (await_resume_by o again p)
  take-Keeps none again p e h c v = absurd (ground (arith, h))
  take-Keeps (some x) again p e h c v = (
    record p {
      value = none;
      delivered = p.delivered ++ x ∷ [];
      proxied = false;
      parent = again && p.external && not p.asked;
    },
    refl,
    record {
      sound = record {
        order =
            v.order
            ∙ ap (λ o. p.delivered ++ to_list o) e
            ∙ sym (append-nil (p.delivered ++ x ∷ []));
        confirmed_once = v.confirmed_once;
        asked_first = v.asked_first;
        ended = ground (arith, c);
        begun = refl;
        put_off = refl;
      };
      empty = ground arith;
      answered = ground arith;
    },
  )

  pub resume_task-Keeps :
      (again : Bool) (p : Portal A)
      → (p.asked || has_value p.value) ≡ true
      → p.parent ≡ false
      → p.confirmed ≡ 0
      → Sound p
      → Keeps (resume_task again p)
  unfolding resume_task
  resume_task-Keeps again p h f c v = elim (Bool-cases (p.asked && not (has_value p.value))) [
    | inl e ↦ rw e (
      record p { confirmed = p.confirmed + 1 },
      refl,
      record {
        sound = record {
          order = v.order;
          confirmed_once = omega (arith, c);
          asked_first = ground (arith, e);
          ended = ground (arith, f);
          begun = v.begun;
          put_off = v.put_off;
        };
        empty = ground (arith, f);
        answered = ground (arith, f);
      },
    )
    | inr e ↦ rw e (take-Keeps p.value again p refl (ground (arith, e, h)) c v)
  ]

  pub wake_up-Keeps :
      (again : Bool) (p : Portal A)
      → (not p.parent || p.asked || has_value p.value) ≡ true
      → Sound p
      → Keeps (wake_up again p)
  unfolding wake_up
  wake_up-Keeps again p h v = elim (Bool-cases p.parent) [
    | inl e ↦ rw e (
        resume_task-Keeps again (record p { parent = false }) (ground (arith, e, h)) refl
          (ground (arith, v.ended, e)) (unset-Sound p v))
    | inr e ↦ rw e (
      record p { parent = false },
      refl,
      record { sound = unset-Sound p v; empty = refl; answered = refl },
    )
  ]

  pub call-Keeps :
      (x : A) (again : Bool) (p : Portal A)
      → has_value p.value ≡ false
      → Inv p
      → Keeps (call x again p)
  unfolding call
  call-Keeps x again p h v = rw h (
      wake_up-Keeps again (record p { value = some x; called = p.called ++ x ∷ [] }) (ground arith)
        (record {
          order =
              ap (λ xs. xs ++ x ∷ []) (v.sound.order ∙ no_value p.value h)
              ∙ ap (λ xs. xs ++ x ∷ []) (append-nil p.delivered);
          confirmed_once = v.sound.confirmed_once;
          asked_first = v.sound.asked_first;
          ended = v.sound.ended;
          begun = v.sound.begun;
          put_off = v.sound.put_off;
        }))
    where
      no_value : (o : Option A) → has_value o ≡ false → p.delivered ++ to_list o ≡ p.delivered ++ []
      no_value none e = refl
      no_value (some y) e = cc

  pub pending-Keeps :
      (p : Portal A)
      → p.proxied ≡ true
      → p.asked ≡ true
      → Sound p
      → (p.parent && has_value p.value) ≡ false
      → Keeps (some (record p { status = cancel_pending }))
  pending-Keeps p e h v f = (
    record p { status = cancel_pending },
    refl,
    record {
      sound = status-Sound cancel_pending p refl (ground (arith, h)) v;
      empty = f;
      answered = ground (arith, e);
    },
  )

  pub proxy_cancel-Keeps :
      (g : Status) (again : Bool) (p : Portal A)
      → p.status ≡ g
      → is_not_started g ≡ false
      → p.proxied ≡ true
      → p.asked ≡ true
      → Sound p
      → (p.parent && has_value p.value) ≡ false
      → Keeps (proxy_cancel g again p)
  unfolding proxy_cancel
  proxy_cancel-Keeps not_started again p s n e h v f = absurd (ground (arith, n))
  proxy_cancel-Keeps scheduled again p s n e h v f = pending-Keeps p e h v f
  proxy_cancel-Keeps cancel_pending again p s n e h v f = pending-Keeps p e h v f
  proxy_cancel-Keeps initiated again p s n e h v f =
      elim (Bool-cases (not p.external && not p.cancellable)) [
        | inl c ↦ rw c (
          p,
          refl,
          record { sound = v; empty = f; answered = ground (arith, c, e, ap is_initiated s) },
        )
        | inr c ↦ rw c (
            wake_up-Keeps again (record p { cancel_calls = p.cancel_calls + 1 }) (ground (arith, h))
              (counted-Sound p v))
      ]

  pub cancel_by-Keeps :
      (b again : Bool) (p : Portal A)
      → p.proxied ≡ b
      → p.asked ≡ true
      → Sound p
      → (p.parent && has_value p.value) ≡ false
      → Keeps (if b then proxy_cancel p.status again p else wake_up again p)
  cancel_by-Keeps true again p e h v f =
      proxy_cancel-Keeps p.status again p refl (ground (arith, e, v.begun)) e h v f
  cancel_by-Keeps false again p e h v f = wake_up-Keeps again p (ground (arith, h)) v

  pub cancel-Keeps : (again : Bool) (p : Portal A) → Inv p → Keeps (cancel again p)
  unfolding cancel
  cancel-Keeps again p v =
      cancel_by-Keeps p.proxied again (record p { asked = true }) refl refl (asked-Sound p v.sound)
        v.empty

  pub await-Keeps :
      (again : Bool) (p : Portal A)
      → (not p.parent && not p.proxied && not p.asked) ≡ true
      → Inv p
      → Keeps (await again p)
  unfolding await
  await-Keeps again p h v = elim (Bool-cases (has_value p.value)) [
    | inl e ↦
        rw e (take-Keeps p.value again p refl e (ground (arith, h, v.sound.asked_first)) v.sound)
    | inr e ↦ rw e (
      record p { parent = true },
      refl,
      record {
        sound = record {
          order = v.sound.order;
          confirmed_once = v.sound.confirmed_once;
          asked_first = v.sound.asked_first;
          ended = ground (arith, h, v.sound.asked_first);
          begun = v.sound.begun;
          put_off = v.sound.put_off;
        };
        empty = e;
        answered = ground (arith, h);
      },
    )
  ]
