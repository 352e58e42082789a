-- ===== src/Channel/Write.antt =====
-- The two forms of `WriteHalf::tryTransfer` of corral/Channel.h, from any state that the invariant
-- allows: what they return, and the invariant after.
use corral.Base.{
  ℕ, ◌+◌, ◌≤◌, ◌<◌, ◌≡◌, ◌⊎◌, inl, inr, true, false, List, [], ◌∷◌, ◌++◌, Bool-cases, some,
  length-append, arith,
}
use corral.Queue.{Queue, push_back}
use corral.Queue.Rep.{Rep}
use corral.Queue.Grow.{push_back-Rep}
use corral.Channel.{Channel, space, wake_reads, write_one, drop_writes}
use corral.Channel.Inv.{Counts, Inv, wake_reads-Inv}

module _ {A : Type 0} where
  -- Adding `n` elements with `k` claims in flight leaves the counts right, for any queue that holds
  -- the old elements and the new, and did not move if the channel is bounded.
  pub write-Counts :
      {kr k : ℕ} {c : Channel A} {xs ys : List A} (n : ℕ) (q : Queue A)
      → Counts kr k c xs
      → Rep q ys
      → (c.bounded ≡ true → q.capacity ≡ c.buf.capacity)
      → q.size ≡ c.buf.size + n
      → c.closed ≡ false
      → k ≤ n
      → (c.bounded ≡ true → n ≤ k + space c c.writes)
      → Counts kr 0 (drop_writes k (record c { buf = q })) ys
  write-Counts n q v r cap sz going some_ most = record {
    holds = r;
    read_claims = v.read_claims;
    write_claims = omega (arith, v.write_claims);
    reads_within = omega (arith, v.reads_within);
    writes_within = λ b.
        let w = v.writes_within b in
        let m = most b in let e = cap b in ground (arith, w, m, e, v.write_claims);
  }

  pub write-settled :
      {kr k : ℕ} {c : Channel A} {xs : List A} (n : ℕ) (q : Queue A)
      → Inv kr k c xs
      → (c.bounded ≡ true → q.capacity ≡ c.buf.capacity)
      → q.size ≡ c.buf.size + n
      → c.closed ≡ false
      → k ≤ n
      → let d = drop_writes k (record c { buf = q }) in
        (d.writes.parked ≡ []) ⊎ (space d d.writes ≡ 0)
  write-settled {c = c} n q v cap sz going some_ = elim (Bool-cases c.bounded) [
    | inl b ↦
        let w = v.counts.writes_within b in
        let e = cap b in ground (arith, v.settled.writes_settled, w, e, v.counts.write_claims)
    | inr u ↦ ground (arith, v.settled.writes_settled)
  ]

  -- Of a bounded channel, what a write may take is free in the buffer.
  pub free_slots :
      {kr k : ℕ} {c : Channel A} {xs : List A} (n : ℕ)
      → Inv kr k c xs
      → c.closed ≡ false
      → n ≤ k + space c c.writes
      → c.bounded ≡ true
      → c.buf.size + n ≤ c.buf.capacity
  free_slots n v going h b =
      let w = v.counts.writes_within b in ground (arith, w, v.counts.write_claims)

  pushed-kept :
      {kr k : ℕ} {c : Channel A} {xs : List A} (x : A)
      → Inv kr k c xs
      → c.closed ≡ false
      → 0 < k + space c c.writes
      → c.bounded ≡ true
      → (push_back x c.buf).capacity ≡ c.buf.capacity
  pushed-kept x v going able b =
      let f = free_slots 1 v going able b in
      ground (arith, (push_back-Rep x v.counts.holds).1, f, v.counts.holds.counted)

  -- On an open channel, with a claim or a free slot that nobody claimed, a write of one element
  -- succeeds and puts it last; a bounded channel keeps its buffer.
  pub write_one-puts :
      {kr k : ℕ} {c : Channel A} {xs : List A} (x : A)
      → Inv kr k c xs
      → k ≤ 1
      → c.closed ≡ false
      → 0 < k + space c c.writes
      → (c' : Channel A) × (write_one k x c ≡ some (true, c'))
        × Inv kr 0 c' (xs ++ x ∷ [])
        × (c.bounded ≡ true → c'.buf.capacity ≡ c.buf.capacity)
  unfolding write_one
  write_one-puts {kr} {k} {c} {xs} x v one going able =
      let q : Queue A = push_back x c.buf in
      let r = (push_back-Rep x v.counts.holds).0 in
      let kept : (c.bounded ≡ true → q.capacity ≡ c.buf.capacity) = pushed-kept x v going able in
      let sz : q.size ≡ c.buf.size + 1 =
        omega (arith, r.counted, length-append xs (x ∷ []), v.counts.holds.counted) in
      let free : (c.bounded ≡ true → c.buf.size + 1 ≤ c.buf.capacity) = free_slots 1 v going able in
      (
        wake_reads (drop_writes k (record c { buf = q })),
        ground (arith, v.counts.write_claims, free),
        wake_reads-Inv (write-Counts 1 q v.counts r kept sz going one (λ b. able))
            (write-settled 1 q v kept sz going one),
        unfold wake_reads in kept,
      )

  -- A write of one element returns false and changes nothing when it has no claim and there is no
  -- free slot that nobody claimed, as on a closed channel.
  pub write_one-refused :
      (x : A) (c : Channel A) → space c c.writes ≡ 0 → write_one 0 x c ≡ some (false, c)
  unfolding write_one
  write_one-refused x c e = ground arith
