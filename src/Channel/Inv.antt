-- ===== src/Channel/Inv.antt =====
-- What holds of a channel (corral/Channel.h) between two calls, and how waking awaiters brings it
-- about.
use corral.Base.{
  ℕ, ◌+◌, ◌-◌, ◌≤◌, ◌≡◌, refl, ◌⊎◌, inl, inr, true, false, List, [], length, Bool-cases, fun_ext,
  subst, some, ◌<◌, ◌==◌, arith,
}
use corral.Queue.{make}
use corral.Queue.Rep.{Rep, make-Rep}
use corral.Channel.{
  Channel, size, space, wake_each, wake_reads, wake_writes, unbounded, bounded_by, idle_half,
}
use corral.Channel.Wake.{wake_each-Woken, wake_each-bound, wake_each-idle}

-- The channel holds `xs`. Claims stay within what is there, and `claims_` counts the awaiters
-- with a claim bit, and `kr` readers and `kw` writers whose transfer is under way.
pub record Counts {A : Type 0} (kr kw : ℕ) (c : Channel A) (xs : List A) : Type 0 where
  pub holds : Rep c.buf xs
  pub read_claims : c.reads.claims ≡ length c.reads.claimed + kr
  pub write_claims : c.writes.claims ≡ length c.writes.claimed + kw
  pub reads_within : c.reads.claims ≤ c.buf.size
  pub writes_within : c.bounded ≡ true → c.buf.size + c.writes.claims ≤ c.buf.capacity

-- No wakeup is lost: a reader is parked only if every element is claimed, a writer only if there
-- is no free slot that is not claimed.
pub record Settled {A : Type 0} (c : Channel A) : Type 0 where
  pub reads_settled : (c.reads.parked ≡ []) ⊎ (size c c.reads ≡ 0)
  pub writes_settled : (c.writes.parked ≡ []) ⊎ (space c c.writes ≡ 0)

pub record Inv {A : Type 0} (kr kw : ℕ) (c : Channel A) (xs : List A) : Type 0 where
  pub counts : Counts kr kw c xs
  pub settled : Settled c

module _ {A : Type 0} where
  pub unbounded-Inv : Inv {A = A} 0 0 unbounded []
  unfolding make
  unbounded-Inv = record {
    counts = record {
      holds = make-Rep 0;
      read_claims = refl;
      write_claims = refl;
      reads_within = omega arith;
      writes_within = λ e. ground arith;
    };
    settled = record { reads_settled = inl refl; writes_settled = inl refl };
  }

  -- A channel that the constructor accepts starts empty, with all its slots.
  pub bounded_by-Inv :
      (n : ℕ) {c : Channel A}
      → bounded_by n ≡ some c
      → Inv 0 0 c [] × (space c c.writes ≡ n) × (0 < n)
  unfolding make
  bounded_by-Inv n {c} e =
      let eq : bounded_by {A = A} n ≡ some c = e in
      elim (Bool-cases (n == 0)) [
        | inl zero_size ↦ absurd (ground arith)
        | inr some_size ↦
            let d : Channel A = record {
              buf = make n;
              closed = false;
              bounded = true;
              reads = idle_half;
              writes = idle_half;
            } in
            let same : d ≡ c = ground arith in
            subst (λ x. Inv 0 0 x [] × (space x x.writes ≡ n) × (0 < n)) same
              (
                record {
                  counts = record {
                    holds = make-Rep n;
                    read_claims = refl;
                    write_claims = refl;
                    reads_within = omega arith;
                    writes_within = λ b. omega arith;
                  };
                  settled = record { reads_settled = inl refl; writes_settled = inl refl };
                },
                ground arith,
                ground arith,
              )
      ]

  wake_reads-settled :
      {kr kw : ℕ} {c : Channel A} {xs : List A}
      → Counts kr kw c xs
      → Counts kr kw (wake_reads c) xs
        × (((wake_reads c).reads.parked ≡ []) ⊎ (size (wake_reads c) (wake_reads c).reads ≡ 0))
  unfolding wake_reads
  wake_reads-settled {kr} {kw} {c} n =
      let w = wake_each-Woken (size c) kr c.reads.parked c.reads refl n.read_claims in
      (
        record {
          holds = n.holds;
          read_claims = w.counted;
          write_claims = n.write_claims;
          reads_within = wake_each-bound c.buf.size c.reads.parked c.reads n.reads_within;
          writes_within = n.writes_within;
        },
        w.settled,
      )

  wake_writes-bound :
      {kr kw : ℕ} {c : Channel A} {xs : List A}
      → Counts kr kw c xs
      → c.bounded ≡ true
      → c.buf.size + (wake_each (space c) c.writes.parked c.writes).claims ≤ c.buf.capacity
  wake_writes-bound {c = c} n b = elim (Bool-cases c.closed) [
    | inl closed ↦
        rw (wake_each-idle (space c) c.writes.parked c.writes (ground arith)) (n.writes_within b)
    | inr going ↦
        let f : space c ≡ (λ h. c.buf.capacity - c.buf.size - h.claims) =
          fun_ext (λ h. ground arith) in
        let within = n.writes_within b in
        rw f (
          omega (
            arith,
            within,
            wake_each-bound (c.buf.capacity - c.buf.size) c.writes.parked c.writes (omega arith),
          ))
  ]

  wake_writes-settled :
      {kr kw : ℕ} {c : Channel A} {xs : List A}
      → Counts kr kw c xs
      → Counts kr kw (wake_writes c) xs
        × (((wake_writes c).writes.parked ≡ [])
            ⊎ (space (wake_writes c) (wake_writes c).writes ≡ 0))
  unfolding wake_writes
  wake_writes-settled {kr} {kw} {c} n =
      let w = wake_each-Woken (space c) kw c.writes.parked c.writes refl n.write_claims in
      (
        record {
          holds = n.holds;
          read_claims = n.read_claims;
          write_claims = w.counted;
          reads_within = n.reads_within;
          writes_within = λ b. wake_writes-bound n b;
        },
        w.settled,
      )

  -- `wakeAwaiters` of the readers restores what a write has disturbed.
  pub wake_reads-Inv :
      {kr kw : ℕ} {c : Channel A} {xs : List A}
      → Counts kr kw c xs
      → (c.writes.parked ≡ []) ⊎ (space c c.writes ≡ 0)
      → Inv kr kw (wake_reads c) xs
  wake_reads-Inv n s = record {
    counts = (wake_reads-settled n).0;
    settled = record {
      reads_settled = (wake_reads-settled n).1;
      writes_settled = unfold wake_reads in s;
    };
  }

  pub wake_writes-Inv :
      {kr kw : ℕ} {c : Channel A} {xs : List A}
      → Counts kr kw c xs
      → (c.reads.parked ≡ []) ⊎ (size c c.reads ≡ 0)
      → Inv kr kw (wake_writes c) xs
  wake_writes-Inv n s = record {
    counts = (wake_writes-settled n).0;
    settled = record {
      reads_settled = unfold wake_writes in s;
      writes_settled = (wake_writes-settled n).1;
    };
  }
