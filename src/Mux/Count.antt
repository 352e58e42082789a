-- ===== src/Mux/Count.antt =====
-- `MuxBase::invoke` (corral/detail/wait.h): its count against the children that are done, however
-- deep the calls nest.
use corral.Base.{
  ℕ, zero, suc, ◌+◌, ◌-◌, ◌<◌, ◌≡◌, refl, inl, inr, Bool, true, false, not, ◌&&◌, ◌||◌, ◌==◌,
  Bool-cases, arith,
}
use corral.Mux.{Mux, size, internal_cancel, resume_if_done, invoke}
use corral.Mux.Children.{done, done-le-length}
use corral.Mux.Cancels.{Counted, Invokes, Cancels, Good, internal_cancel-Cancels}

module _ (d : ℕ) (m : Mux) (b : Counted (d + 1) m) where
  -- The three ends of `invoke`.
  last-Invokes :
      (e : Bool)
      → (m.count + 1 == size m) ≡ true
      → Invokes d m (record m { count = m.count + 1; error = e; resumed = m.resumed + 1 })
  last-Invokes e last = record {
    goes = record {
      counted = omega (arith, b);
      same_size = refl;
      same_ready = refl;
      grown = omega arith;
      sound = refl;
      lasting = λ j k. k;
    };
    resumption = ground (arith, b, done-le-length m.children);
  }

  quiet-Invokes :
      (e : Bool)
      → (m.count + 1 == size m) ≡ false
      → Invokes d m (record m { count = m.count + 1; error = e })
  quiet-Invokes e more = record {
    goes = record {
      counted = omega (arith, b);
      same_size = refl;
      same_ready = refl;
      grown = omega arith;
      sound = refl;
      lasting = λ j k. k;
    };
    resumption = ground (arith, b);
  }

  rest-Invokes :
      (e : Bool) (n : Mux)
      → Cancels (suc d) (record m { count = m.count + 1 - 1; error = e }) n
      → Invokes d m (resume_if_done (record n { count = n.count + 1 }))
  rest-Invokes e n c = elim (Bool-cases (n.count + 1 == size n)) [
    | inl last ↦ rw last (record {
      goes = record {
        counted = omega (arith, c.goes.counted);
        same_size = c.goes.same_size;
        same_ready = c.goes.same_ready;
        grown = c.goes.grown;
        sound = c.goes.sound;
        lasting = c.goes.lasting;
      };
      resumption = ground (arith, c.resumption, c.goes.counted, done-le-length n.children);
    })
    | inr more ↦ rw more (record {
      goes = record {
        counted = omega (arith, c.goes.counted);
        same_size = c.goes.same_size;
        same_ready = c.goes.same_ready;
        grown = c.goes.grown;
        sound = c.goes.sound;
        lasting = c.goes.lasting;
      };
      resumption = ground (arith, c.resumption, c.goes.counted);
    })
  ]

invoke-step :
    (f d : ℕ) (e : Bool) (m : Mux)
    → Counted (d + 1) m
    → size m < done m.children + suc f
    → Good (suc d) f (invoke f)
    → Invokes d m (invoke (suc f) e m)
unfolding invoke
invoke-step f d e m b fuel good = elim (Bool-cases (m.count + 1 == size m)) [
  | inl last ↦ rw last (last-Invokes d m b (m.error || e) last)
  | inr more ↦ elim (Bool-cases ((e && not m.error) || (m.count + 1 == m.min_ready))) [
    | inl cancels ↦ rw (more, cancels) (rest-Invokes d m b (m.error || e) rest c)
    | inr quiet ↦ rw (more, quiet) (quiet-Invokes d m b (m.error || e) more)
  ]
]
  where
    start : Mux
    start = record m { count = m.count + 1 - 1; error = m.error || e }

    rest : Mux
    rest = internal_cancel (invoke f) 0 (size m) start

    c : Cancels (suc d) start rest
    c =
        internal_cancel-Cancels (suc d) f (invoke f) good 0 (size m) start (omega (arith, b))
          (omega (arith, fuel))

-- A call of the mux's `invoke` for a child that has just been done, at any depth.
pub invoke-Good : (f d : ℕ) → Good d f (invoke f)
invoke-Good zero d e m b fuel = absurd (omega (arith, done-le-length m.children))
invoke-Good (suc f) d e m b fuel = invoke-step f d e m b fuel (invoke-Good f (suc d))
