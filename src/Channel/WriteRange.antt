-- ===== src/Channel/WriteRange.antt =====
-- `WriteHalf::tryTransfer` of a range (corral/Channel.h), in both of its branches.
use corral.Base.{
  ℕ, zero, suc, ◌+◌, ◌≤◌, ◌<◌, min, ◌-◌, Bool-cases, inl, inr, ◌≡◌, refl, ◌∙◌, true, false, List,
  [], ◌∷◌, ◌++◌, length, some, take, length-take, length-append, append-nil, append_assoc, arith,
}
use corral.Queue.{Queue, push_back, append}
use corral.Queue.Rep.{Rep}
use corral.Queue.Grow.{push_back-Rep}
use corral.Queue.Append.{append-Rep, append-capacity}
use corral.Channel.{
  Channel, space, avail, wake_reads, write_by, write_many, write_each, push_each, drop_writes,
  size_max,
}
use corral.Channel.Inv.{Inv, wake_reads-Inv}
use corral.Channel.Write.{write-Counts, write-settled, free_slots}

module _ {A : Type 0} where
  -- What the two ways to fill the buffer have in common: they append at most `n` elements, and do
  -- not move a buffer that has room for them.
  pub record Fills (fill : ℕ → List A → Queue A → Queue A) : Type 0 where
    pub appends :
        (n : ℕ) (ys : List A) {q : Queue A} {xs : List A}
        → Rep q xs
        → Rep (fill n ys q) (xs ++ take n ys)
    pub stays :
        (n : ℕ) (ys : List A) {q : Queue A} {xs : List A}
        → Rep q xs
        → n ≤ length ys
        → q.size + n ≤ q.capacity
        → (fill n ys q).capacity ≡ q.capacity

  append-Fills : Fills (λ n xs q. append (take n xs) q)
  append-Fills = record {
    appends = λ n ys r. append-Rep (take n ys) r;
    stays = λ n ys {q} r h room. append-capacity q (take n ys) (omega (arith, length-take n ys));
  }

  push_each-Rep :
      (n : ℕ) (ys : List A) {q : Queue A} {xs : List A}
      → Rep q xs
      → Rep (push_each n ys q) (xs ++ take n ys)
  unfolding push_each
  push_each-Rep zero ys {q} {xs} r = rw append-nil r
  push_each-Rep (suc n) [] {q} {xs} r = rw append-nil r
  push_each-Rep (suc n) (y ∷ ys) {q} {xs} r =
      rw (← append_assoc xs (y ∷ []) (take n ys)) (push_each-Rep n ys (push_back-Rep y r).0)

  push_each-capacity :
      (n : ℕ) (ys : List A) {q : Queue A} {xs : List A}
      → Rep q xs
      → n ≤ length ys
      → q.size + n ≤ q.capacity
      → (push_each n ys q).capacity ≡ q.capacity
  unfolding push_each
  push_each-capacity zero ys r h room = refl
  push_each-capacity (suc n) [] r h room = refl
  push_each-capacity (suc n) (y ∷ ys) {q} {xs} r h room =
      let p = push_back-Rep y r in
      let same : (push_back y q).capacity ≡ q.capacity = ground (arith, p.1, r.counted) in
      push_each-capacity n ys p.0 (omega arith)
        (omega (arith, same, p.0.counted, length-append xs (y ∷ []), r.counted))
      ∙ same

  push_each-Fills : Fills push_each
  push_each-Fills = record { appends = push_each-Rep; stays = push_each-capacity }

  module _ {fill : ℕ → List A → Queue A → Queue A} (f : Fills fill) where
    fill-kept :
        {kr k : ℕ} {c : Channel A} {xs : List A} (n : ℕ) (ys : List A)
        → Inv kr k c xs
        → c.closed ≡ false
        → n ≤ length ys
        → (c.bounded ≡ true → n ≤ k + space c c.writes)
        → c.bounded ≡ true
        → (fill n ys c.buf).capacity ≡ c.buf.capacity
    fill-kept n ys v going h most b =
        f.stays n ys v.counts.holds h (free_slots n v going (most b) b)

    write_by-puts :
        {kr k : ℕ} {c : Channel A} {xs : List A} (ys : List A)
        → Inv kr k c xs
        → k ≤ 1
        → c.closed ≡ false
        → 0 < length ys
        → 0 < avail k c
        → let n = min (length ys) (avail k c) in
          (c' : Channel A) × (write_by fill k ys c ≡ some (n, c'))
          × Inv kr 0 c' (xs ++ take n ys)
          × (c.bounded ≡ true → c'.buf.capacity ≡ c.buf.capacity)
    unfolding write_by
    write_by-puts {kr} {k} {c} {xs} ys v one going some_ able =
        let n : ℕ = min (length ys) (avail k c) in
        let q : Queue A = fill n ys c.buf in
        let r : Rep q (xs ++ take n ys) = f.appends n ys v.counts.holds in
        let most : (c.bounded ≡ true → n ≤ k + space c c.writes) = λ b. ground arith in
        let kept : (c.bounded ≡ true → q.capacity ≡ c.buf.capacity) =
          fill-kept n ys v going (omega arith) most in
        let sz : q.size ≡ c.buf.size + n = omega (
          arith,
          r.counted,
          length-append xs (take n ys),
          length-take n ys,
          v.counts.holds.counted,
        ) in
        let enough : k ≤ n = omega arith in
        (
          wake_reads (drop_writes k (record c { buf = q })),
          ground (
            arith,
            v.counts.write_claims,
            most,
            λ (b : c.bounded ≡ true). free_slots n v going (most b) b,
          ),
          wake_reads-Inv (write-Counts n q v.counts r kept sz going enough most)
              (write-settled n q v kept sz going enough),
          unfold wake_reads in kept,
        )

  -- On an open channel, a range write by a writer with `k` claims, at most one, puts the first elements of
  -- the range last: all of them if the channel is unbounded, and otherwise as many as there are free slots
  -- that nobody else has claimed, the writer's own claim included. It may write at least one. Claims and
  -- wakeups stay in order, and a bounded channel keeps its buffer.
  pub write_many-puts :
      {kr k : ℕ} {c : Channel A} {xs : List A} (ys : List A)
      → Inv kr k c xs
      → k ≤ 1
      → c.closed ≡ false
      → 0 < length ys
      → length ys ≤ size_max
      → (c.bounded ≡ true → c.buf.size + c.writes.claims < c.buf.capacity + k)
      → (n : ℕ) × (c' : Channel A) × (write_many k ys c ≡ some (n, c'))
        × (c.bounded ≡ false → n ≡ length ys)
        × (c.bounded ≡ true
            → n ≡ min (length ys) (c.buf.capacity + k - (c.buf.size + c.writes.claims)))
        × Inv kr 0 c' (xs ++ take n ys)
        × (c.bounded ≡ true → c'.buf.capacity ≡ c.buf.capacity)
  unfolding write_many
  write_many-puts {kr} {k} {c} {xs} ys v one going some_ small free =
      let within = v.counts.writes_within in
      let room : 0 < avail k c = elim (Bool-cases c.bounded) [
        | inl b ↦ let f = free b in let w = within b in ground (arith, b, f, w, going)
        | inr b ↦ ground (arith, b)
      ] in
      let (c', e, w, kept) = write_by-puts append-Fills ys v one going some_ room in
      (
        min (length ys) (avail k c),
        c',
        e,
        (λ b. ground (arith, b, small)),
        (λ b. let f = free b in let w = within b in ground (arith, b, going, f, w)),
        w,
        kept,
      )

  -- Element by element, a range write comes to the same.
  pub write_each-puts :
      {kr k : ℕ} {c : Channel A} {xs : List A} (ys : List A)
      → Inv kr k c xs
      → k ≤ 1
      → c.closed ≡ false
      → 0 < length ys
      → 0 < avail k c
      → let n = min (length ys) (avail k c) in
        (c' : Channel A) × (write_each k ys c ≡ some (n, c'))
        × Inv kr 0 c' (xs ++ take n ys)
        × (c.bounded ≡ true → c'.buf.capacity ≡ c.buf.capacity)
  unfolding write_each
  write_each-puts = write_by-puts push_each-Fills
