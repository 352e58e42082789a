-- ===== src/Channel/Resume.antt =====
-- `await_resume` of the awaiters of corral/Channel.h: what a task finds when it wakes up.
use corral.Base.{
  ℕ, ◌≡◌, refl, true, false, List, [], ◌∷◌, ◌++◌, none, some, has, length-remove, remove-absent,
  arith,
}
use corral.Channel.{Channel, size}
use corral.Channel.Inv.{Inv}
use corral.Channel.Read.{read_one-takes, read_one-none}
use corral.Channel.Write.{write_one-puts}
use corral.Channel.Closing.{write_one-closed}
use corral.Channel.Awaiters.{reading, writing, put, ready, resume_read, resume_write, unset}

module _ {A : Type 0} {kw : ℕ} {c : Channel A} where
  -- Clearing the claim bit of a reader leaves its claim in flight.
  unset-Inv_read :
      {xs : List A} (i : ℕ)
      → Inv 0 kw c xs
      → has i c.reads.claimed ≡ true
      → Inv 1 kw (put reading (unset i c.reads) c) xs
  unset-Inv_read i v h = record {
    counts = record {
      holds = v.counts.holds;
      read_claims = omega (arith, v.counts.read_claims, length-remove i c.reads.claimed h);
      write_claims = v.counts.write_claims;
      reads_within = v.counts.reads_within;
      writes_within = v.counts.writes_within;
    };
    settled = record {
      reads_settled = v.settled.reads_settled;
      writes_settled = v.settled.writes_settled;
    };
  }

  -- A reader that holds a claim finds an element when it resumes, the oldest one.
  pub resume_read-claimed :
      {xs : List A} (i : ℕ)
      → Inv 0 kw c xs
      → has i c.reads.claimed ≡ true
      → (x : A) × (ys : List A) × (c' : Channel A) × (xs ≡ x ∷ ys)
        × (resume_read i c ≡ some (some x, c'))
        × Inv 0 kw c' ys
  unfolding resume_read ready
  resume_read-claimed {xs = []} i v h = absurd (
      omega (
        arith,
        v.counts.holds.counted,
        v.counts.reads_within,
        v.counts.read_claims,
        length-remove i c.reads.claimed h,
      ))
  resume_read-claimed {xs = x ∷ ys} i v h =
      let (c', e, w) = read_one-takes (unset-Inv_read i v h) (omega arith) (omega arith) in
      (x, ys, c', refl, ground (arith, h, e), w)

module _ {A : Type 0} {c : Channel A} where
  -- A reader that wakes up without a claim, because the channel is closed, finds the end if nothing
  -- is left that others have not claimed.
  pub resume_read-end :
      (i : ℕ)
      → has i c.reads.claimed ≡ false
      → c.closed ≡ true
      → size c c.reads ≡ 0
      → resume_read i c ≡ some (none, c)
  unfolding resume_read ready
  resume_read-end i h e z = ground (arith, read_one-none c z, remove-absent i c.reads.claimed h)

module _ {A : Type 0} {kr : ℕ} {c : Channel A} where
  unset-Inv_write :
      {xs : List A} (i : ℕ)
      → Inv kr 0 c xs
      → has i c.writes.claimed ≡ true
      → Inv kr 1 (put writing (unset i c.writes) c) xs
  unset-Inv_write i v h = record {
    counts = record {
      holds = v.counts.holds;
      read_claims = v.counts.read_claims;
      write_claims = omega (arith, v.counts.write_claims, length-remove i c.writes.claimed h);
      reads_within = v.counts.reads_within;
      writes_within = v.counts.writes_within;
    };
    settled = record {
      reads_settled = v.settled.reads_settled;
      writes_settled = v.settled.writes_settled;
    };
  }

  -- A writer that holds a claim delivers its element when it resumes, if the channel is still open.
  pub resume_write-claimed :
      {xs : List A} (i : ℕ) (x : A)
      → Inv kr 0 c xs
      → has i c.writes.claimed ≡ true
      → c.closed ≡ false
      → (c' : Channel A) × (resume_write i x c ≡ some (true, c'))
        × Inv kr 0 c' (xs ++ x ∷ [])
        × (c.bounded ≡ true → c'.buf.capacity ≡ c.buf.capacity)
  unfolding resume_write ready
  resume_write-claimed i x v h going =
      let (c', e, w, k) =
        write_one-puts x (unset-Inv_write i v h) (omega arith) going (omega arith) in
      (c', ground (arith, h, e), w, k)

  -- If the channel was closed in between, the transfer fails the assertion that it is open.
  pub resume_write-closed :
      {xs : List A} (i : ℕ) (x : A)
      → Inv kr 0 c xs
      → has i c.writes.claimed ≡ true
      → c.closed ≡ true
      → resume_write i x c ≡ none
  unfolding resume_write ready
  resume_write-closed i x v h shut =
      let e =
        write_one-closed (put writing (unset i c.writes) c) x shut
          (omega (arith, v.counts.write_claims, length-remove i c.writes.claimed h)) in
      ground (arith, h, e)
