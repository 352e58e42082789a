-- ===== src/Channel/Wake.antt =====
-- `wakeAwaiters` of corral/Channel.h, for either half.
use corral.Base.{
  ℕ, ◌+◌, ◌-◌, ◌≤◌, ◌≡◌, refl, ◌⊎◌, inl, inr, List, [], ◌∷◌, ◌==◌, length, Bool-cases, remove,
  remove-head, ◌++◌, ◌∙◌, sym, ap, append_assoc, append-nil, arith,
}
use corral.ParkingLot.{unpark}
use corral.Channel.{Half, claim, wake_each}

-- What the loop leaves: nobody parked or nothing unclaimed, and a claim for each awaiter woken.
pub record Woken (unclaimed : Half → ℕ) (k : ℕ) (h : Half) : Type 0 where
  pub settled : (h.parked ≡ []) ⊎ (unclaimed h ≡ 0)
  pub counted : h.claims ≡ length h.claimed + k

pub wake_each-Woken :
    (unclaimed : Half → ℕ) (k : ℕ) (ps : List ℕ) (h : Half)
    → h.parked ≡ ps
    → h.claims ≡ length h.claimed + k
    → Woken unclaimed k (wake_each unclaimed ps h)
unfolding wake_each unpark
wake_each-Woken u k [] h e c = record { settled = inl e; counted = c }
wake_each-Woken u k (i ∷ is) h e c = elim (Bool-cases (u h == 0)) [
  | inl done ↦ rw done (record { settled = inr (ground arith); counted = c })
  | inr more ↦ rw more (
      wake_each-Woken u k is (record (claim i h) { lot = unpark i h.lot }) (ground arith)
        (omega arith))
]

-- Claims never pass what there is to claim.
pub wake_each-bound :
    (n : ℕ) (ps : List ℕ) (h : Half)
    → h.claims ≤ n
    → (wake_each (λ g. n - g.claims) ps h).claims ≤ n
unfolding wake_each unpark
wake_each-bound n [] h c = c
wake_each-bound n (i ∷ is) h c = elim (Bool-cases ((n - h.claims) == 0)) [
  | inl done ↦ rw done c
  | inr more ↦
      rw more (wake_each-bound n is (record (claim i h) { lot = unpark i h.lot }) (ground arith))
]

pub wake_each-idle :
    (unclaimed : Half → ℕ) (ps : List ℕ) (h : Half) → unclaimed h ≡ 0 → wake_each unclaimed ps h ≡ h
unfolding wake_each
wake_each-idle u [] h e = refl
wake_each-idle u (i ∷ is) h e = ground arith

-- The longest waiters are woken first, and nobody is passed over or lost.
pub wake_each-order :
    (unclaimed : Half → ℕ) (ps : List ℕ) (h : Half)
    → h.parked ≡ ps
    → let g = wake_each unclaimed ps h in g.resumed ++ g.parked ≡ h.resumed ++ h.parked
unfolding wake_each unpark
wake_each-order u [] h e = refl
wake_each-order u (i ∷ is) h e = elim (Bool-cases (u h == 0)) [
  | inl done ↦ rw done
  | inr more ↦ rw more (
      wake_each-order u is (record (claim i h) { lot = unpark i h.lot }) (next e)
      ∙ ap (λ l. (h.resumed ++ i ∷ []) ++ l) (next e)
      ∙ append_assoc h.resumed (i ∷ []) is
      ∙ ap (λ l. h.resumed ++ l) (sym e))
]
  where
    next : h.parked ≡ i ∷ is → remove i h.parked ≡ is
    next e = ground (arith, remove-head i is)

-- The awaiters of a list claim, one after the other.
unfoldable pub claim_all : List ℕ → List ℕ → List ℕ
claim_all [] claimed = claimed
claim_all (i ∷ is) claimed = claim_all is (i ∷ claimed)

-- What the loop does to a half: those of `ws` are woken, in order, each with a claim, and those of `rest`
-- stay parked.
pub record Served (h g : Half) (ws rest : List ℕ) : Type 0 where
  pub parted : h.parked ≡ ws ++ rest
  pub parked_ : g.parked ≡ rest
  pub resumed_ : g.resumed ≡ h.resumed ++ ws
  pub claims_ : g.claims ≡ h.claims + length ws
  pub claimed_ : g.claimed ≡ claim_all ws h.claimed

pub wake_each-Served :
    (unclaimed : Half → ℕ) (ps : List ℕ) (h : Half)
    → h.parked ≡ ps
    → (ws : List ℕ) × (rest : List ℕ) × Served h (wake_each unclaimed ps h) ws rest
unfolding wake_each unpark claim_all
wake_each-Served u [] h e = (
  [],
  [],
  record {
    parted = e;
    parked_ = e;
    resumed_ = sym (append-nil h.resumed);
    claims_ = omega arith;
    claimed_ = refl;
  },
)
wake_each-Served u (i ∷ is) h e = elim (Bool-cases (u h == 0)) [
  | inl done ↦ (
    [],
    i ∷ is,
    rw done (record {
      parted = e;
      parked_ = e;
      resumed_ = sym (append-nil h.resumed);
      claims_ = omega arith;
      claimed_ = refl;
    }),
  )
  | inr more ↦
      let next : remove i h.parked ≡ is = ap (remove i) e ∙ remove-head i is in
      let (ws, rest, v) =
        wake_each-Served u is (record (claim i h) { lot = unpark i h.lot }) next in
      (
        i ∷ ws,
        rest,
        rw more (record {
          parted = e ∙ ap (λ l. i ∷ l) (sym next ∙ v.parted);
          parked_ = v.parked_;
          resumed_ = v.resumed_ ∙ append_assoc h.resumed (i ∷ []) ws;
          claims_ = omega (arith, v.claims_);
          claimed_ = v.claimed_;
        }),
      )
]
