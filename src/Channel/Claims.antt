-- ===== src/Channel/Claims.antt =====
-- The awaiters of corral/Channel.h keep the invariant: construction, suspension, cancellation and
-- destruction.
use corral.Base.{
  ℕ, ◌+◌, ◌<◌, ◌≡◌, refl, ap, length, [], ◌∷◌, ◌++◌, remove, inl, inr, Bool, true, false, not, ◌&&◌,
  List, some, ◌==◌, Bool-cases, has, remove-nil, arith,
}
use corral.ParkingLot.{do_suspend, unlink}
use corral.Channel.{Half, Channel, claim}
use corral.Channel.Wake.{claim_all}
use corral.Channel.Inv.{Inv}
use corral.Channel.Awaiters.{
  Side, reading, writing, half, put, unclaimed, construct, ready, await_suspend, await_cancel,
}

half-put : {A : Type 0} (s : Side) (h : Half) (c : Channel A) → half s (put s h c) ≡ h
half-put reading h c = refl
half-put writing h c = refl

module _ {A : Type 0} {kr kw : ℕ} {c : Channel A} {xs : List A} (v : Inv kr kw c xs) where
  -- A claim made while something is unclaimed.
  claim-Inv : (s : Side) (i : ℕ) → 0 < unclaimed s c → Inv kr kw (put s (claim i (half s c)) c) xs
  claim-Inv reading i h = record {
    counts = record {
      holds = v.counts.holds;
      read_claims = omega (arith, v.counts.read_claims);
      write_claims = v.counts.write_claims;
      reads_within = omega (arith, h);
      writes_within = v.counts.writes_within;
    };
    settled = record {
      reads_settled = ground (arith, v.settled.reads_settled);
      writes_settled = v.settled.writes_settled;
    };
  }
  claim-Inv writing i h = record {
    counts = record {
      holds = v.counts.holds;
      read_claims = v.counts.read_claims;
      write_claims = omega (arith, v.counts.write_claims);
      reads_within = v.counts.reads_within;
      writes_within = λ b. let w = v.counts.writes_within b in ground (arith, w, h);
    };
    settled = record {
      reads_settled = v.settled.reads_settled;
      writes_settled = ground (arith, v.settled.writes_settled, h);
    };
  }

  -- Constructing an awaiter keeps the invariant.
  pub construct-Inv : (s : Side) (i : ℕ) (noop : Bool) → Inv kr kw (construct s i noop c) xs
  unfolding construct
  construct-Inv s i noop = elim (Bool-cases (not (unclaimed s c == 0) && not noop)) [
    | inl able ↦ rw able (claim-Inv s i (ground arith))
    | inr unable ↦ rw unable v
  ]

  park-Inv :
      (s : Side) (i : ℕ)
      → unclaimed s c ≡ 0
      → Inv kr kw (put s (record (half s c) { lot = do_suspend i (half s c).lot }) c) xs
  park-Inv reading i h = record {
    counts = record {
      holds = v.counts.holds;
      read_claims = v.counts.read_claims;
      write_claims = v.counts.write_claims;
      reads_within = v.counts.reads_within;
      writes_within = v.counts.writes_within;
    };
    settled = record { reads_settled = inr h; writes_settled = v.settled.writes_settled };
  }
  park-Inv writing i h = record {
    counts = record {
      holds = v.counts.holds;
      read_claims = v.counts.read_claims;
      write_claims = v.counts.write_claims;
      reads_within = v.counts.reads_within;
      writes_within = v.counts.writes_within;
    };
    settled = record { reads_settled = v.settled.reads_settled; writes_settled = inr h };
  }

  -- An awaiter that is not ready suspends exactly if nothing is unclaimed: it is parked behind those who
  -- wait, and claims nothing. Otherwise it takes a claim and goes on, and is not parked. The contents stay,
  -- and claims and wakeups stay in order.
  pub await_suspend-Inv :
      (s : Side) (i : ℕ)
      → ready s i false c ≡ false
      → (c' : Channel A) × (await_suspend s i c ≡ some (unclaimed s c == 0, c'))
        × Inv kr kw c' xs
        × (unclaimed s c ≡ 0
            → ((half s c').parked ≡ remove i (half s c).parked ++ i ∷ [])
              × ((half s c').claimed ≡ (half s c).claimed)
              × ((half s c').claims ≡ (half s c).claims))
        × (0 < unclaimed s c
            → ((half s c').parked ≡ (half s c).parked)
              × ((half s c').claimed ≡ i ∷ (half s c).claimed)
              × ((half s c').claims ≡ (half s c).claims + 1))
  unfolding await_suspend ready do_suspend
  await_suspend-Inv s i h = elim (Bool-cases (unclaimed s c == 0)) [
    | inl none_left ↦
        let d : Channel A = put s (record (half s c) { lot = do_suspend i (half s c).lot }) c in
        let e = half-put s (record (half s c) { lot = do_suspend i (half s c).lot }) c in
        (
          d,
          ground (arith, none_left),
          park-Inv s i (ground arith),
          (λ z. (ap (λ g. g.parked) e, ap (λ g. g.claimed) e, ap (λ g. g.claims) e)),
          λ z. absurd (ground (arith, none_left, z)),
        )
    | inr more ↦
        let e = half-put s (claim i (half s c)) c in
        (
          put s (claim i (half s c)) c,
          ground (arith, more),
          claim-Inv s i (ground arith),
          (λ z. absurd (ground (arith, more, z))),
          λ z. (ap (λ g. g.parked) e, ap (λ g. g.claimed) e, ap (λ g. g.claims) e),
        )
  ]

  -- Cancelling an awaiter keeps the invariant.
  pub await_cancel-Inv : (s : Side) (i : ℕ) → Inv kr kw (await_cancel s i c) xs
  unfolding await_cancel unlink
  await_cancel-Inv reading i = record {
    counts = record {
      holds = v.counts.holds;
      read_claims = v.counts.read_claims;
      write_claims = v.counts.write_claims;
      reads_within = v.counts.reads_within;
      writes_within = v.counts.writes_within;
    };
    settled = record {
      reads_settled = ground (arith, v.settled.reads_settled, remove-nil i);
      writes_settled = v.settled.writes_settled;
    };
  }
  await_cancel-Inv writing i = record {
    counts = record {
      holds = v.counts.holds;
      read_claims = v.counts.read_claims;
      write_claims = v.counts.write_claims;
      reads_within = v.counts.reads_within;
      writes_within = v.counts.writes_within;
    };
    settled = record {
      reads_settled = v.settled.reads_settled;
      writes_settled = ground (arith, v.settled.writes_settled, remove-nil i);
    };
  }

-- What becomes of the half of an awaiter that is destroyed, `g`: a claim that it held goes to those who
-- waited longest, `ws`, as far as there is something to claim, and the awaiter is not parked any more.
pub record GivenBack (i : ℕ) (h g : Half) : Type 0 where
  pub held :
      has i h.claimed ≡ true
      → (ws : List ℕ) × (rest : List ℕ) × (h.parked ≡ ws ++ rest)
        × (g.parked ≡ remove i rest)
        × (g.resumed ≡ h.resumed ++ ws)
        × (g.claimed ≡ claim_all ws (remove i h.claimed))
        × (g.claims + 1 ≡ h.claims + length ws)
  pub free :
      has i h.claimed ≡ false
      → (g.parked ≡ remove i h.parked)
        × (g.resumed ≡ h.resumed)
        × (g.claimed ≡ h.claimed)
        × (g.claims ≡ h.claims)
