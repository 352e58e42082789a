-- ===== src/Channel/Read.antt =====
-- The two forms of `ReadHalf::tryTransfer` of corral/Channel.h, from any state that the invariant
-- allows: what they return, and the invariant after.
use corral.Base.{
  ℕ, ◌+◌, ◌≤◌, ◌<◌, min, ◌≡◌, refl, ◌⊎◌, inl, inr, List, [], ◌∷◌, Bool-cases, none, some, take,
  drop, length-drop, ◌==◌, get_elem?-cons, subst, ==_iff, arith,
}
use corral.Queue.{Queue, front}
use corral.Queue.Rep.{Rep, index, pop_front-Rep}
use corral.Queue.PopTo.{pop_front_to-Rep}
use corral.Channel.{Channel, size, wake_writes, read_one, read_many, drop_reads, pop_one}
use corral.Channel.Inv.{Counts, Inv, wake_writes-Inv}

module _ {A : Type 0} where
  -- Taking `n` elements with `k` claims in flight leaves the counts right, for any queue that holds
  -- the rest.
  read-Counts :
      {k kw : ℕ} {c : Channel A} {xs ys : List A} (n : ℕ) (q : Queue A)
      → Counts k kw c xs
      → Rep q ys
      → q.capacity ≡ c.buf.capacity
      → q.size + n ≡ c.buf.size
      → k ≤ n
      → n ≤ k + size c c.reads
      → Counts 0 kw (drop_reads k (record c { buf = q })) ys
  read-Counts n q v r cap sz some_ most = record {
    holds = r;
    read_claims = omega (arith, v.read_claims);
    write_claims = v.write_claims;
    reads_within = omega (arith, v.reads_within);
    writes_within = λ b. let w = v.writes_within b in omega (arith, w);
  }

  read-settled :
      {k kw : ℕ} {c : Channel A} {xs : List A} (n : ℕ) (q : Queue A)
      → Inv k kw c xs
      → q.size + n ≡ c.buf.size
      → k ≤ n
      → let d = drop_reads k (record c { buf = q }) in (d.reads.parked ≡ []) ⊎ (size d d.reads ≡ 0)
  read-settled n q v sz some_ =
      ground (arith, v.settled.reads_settled, v.counts.reads_within, v.counts.read_claims)

  pop_one-Rep :
      {q : Queue A} {x : A} {xs : List A}
      → Rep q (x ∷ xs)
      → (q' : Queue A) × (pop_one q ≡ some (x, q')) × Rep q' xs × (q'.capacity ≡ q.capacity)
  unfolding front
  pop_one-Rep {q} {x} {xs} r =
      let (q', e, r', cap) = pop_front-Rep r in
      (
        q',
        ground (arith, r.cells q.head, e, get_elem?-cons x xs (index q.head q.capacity q.head)),
        r',
        cap,
      )

  -- With a claim, or with an element that nobody claimed, a read of one element returns the oldest.
  pub read_one-takes :
      {k kw : ℕ} {c : Channel A} {x : A} {xs : List A}
      → Inv k kw c (x ∷ xs)
      → k ≤ 1
      → 0 < k + size c c.reads
      → (c' : Channel A) × (read_one k c ≡ some (some x, c')) × Inv 0 kw c' xs
  unfolding read_one
  read_one-takes {k} {kw} {c} {x} {xs} v one able =
      let (q, e, r, cap) = pop_one-Rep v.counts.holds in
      let sz : q.size + 1 ≡ c.buf.size = omega (arith, r.counted, v.counts.holds.counted) in
      (
        wake_writes (drop_reads k (record c { buf = q })),
        ground (arith, e, v.counts.read_claims, v.counts.holds.counted),
        wake_writes-Inv (read-Counts 1 q v.counts r cap sz one (omega arith))
            (read-settled 1 q v sz one),
      )

  -- Without either, it returns nothing and changes nothing.
  pub read_one-none : (c : Channel A) → size c c.reads ≡ 0 → read_one 0 c ≡ some (none, c)
  unfolding read_one
  read_one-none c e = ground arith

  read_many-nothing :
      {k kw : ℕ} {c : Channel A} {xs : List A} (wanted : ℕ)
      → Inv k kw c xs
      → k ≤ wanted
      → min wanted (k + size c c.reads) ≡ 0
      → (read_many k wanted c ≡ some ([], c)) × Inv 0 kw c xs
  unfolding read_many
  read_many-nothing {k} {kw} {c} {xs} wanted v enough z =
      let e : k ≡ 0 = omega arith in
      (ground (arith, v.counts.read_claims), subst (λ j. Inv j kw c xs) e v)

  read_many-some :
      {k kw : ℕ} {c : Channel A} {xs : List A} (wanted n : ℕ)
      → Inv k kw c xs
      → k ≤ n
      → min wanted (k + size c c.reads) ≡ n
      → 0 < n
      → (c' : Channel A) × (read_many k wanted c ≡ some (take n xs, c')) × Inv 0 kw c' (drop n xs)
  unfolding read_many
  read_many-some {k} {kw} {c} {xs} wanted n v enough e some_ =
      let within : n ≤ c.buf.size = omega (arith, v.counts.reads_within, v.counts.read_claims) in
      let (q, got, r, cap) = pop_front_to-Rep n v.counts.holds within in
      let sz : q.size + n ≡ c.buf.size =
        omega (arith, r.counted, v.counts.holds.counted, length-drop n xs, within) in
      (
        wake_writes (drop_reads k (record c { buf = q })),
        ground (arith, e, got, v.counts.read_claims, within),
        wake_writes-Inv (read-Counts n q v.counts r cap sz enough (omega arith))
            (read-settled n q v sz enough),
      )

  -- A read of up to `wanted` elements hands over the oldest, as many as are wanted of those that
  -- this reader has claimed or nobody has.
  pub read_many-takes :
      {k kw : ℕ} {c : Channel A} {xs : List A} (wanted : ℕ)
      → Inv k kw c xs
      → k ≤ wanted
      → let n = min wanted (k + size c c.reads) in
        (c' : Channel A) × (read_many k wanted c ≡ some (take n xs, c')) × Inv 0 kw c' (drop n xs)
  read_many-takes {k} {kw} {c} {xs} wanted v enough =
      elim (Bool-cases (min wanted (k + size c c.reads) == 0)) [
        | inl nothing ↦
            let z = (==_iff (min wanted (k + size c c.reads)) 0).0 nothing in
            let (e, w) = read_many-nothing wanted v enough z in (c, rw z e, rw z w)
        | inr more ↦
            read_many-some wanted (min wanted (k + size c c.reads)) v (omega arith) refl
              (ground arith)
      ]
