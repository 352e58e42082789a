-- ===== src/Channel.antt =====
-- corral/Channel.h: a bounded or unbounded channel between tasks, over detail/Queue.h and two wait
-- queues. `none` is a failed CORRAL_ASSERT or a fault of the queue. A difference of size_t stops at
-- 0 here; `Channel.Inv` shows that none of them is taken below 0.
pub mod Wake
pub mod Inv
pub mod Read
pub mod Write
pub mod WriteRange
pub mod Closing
pub mod Awaiters
pub mod Claims
pub mod Resume
mod Tests
use corral.Base.{
  ℕ, zero, suc, ◌+◌, ◌-◌, ◌^◌, min, Bool, true, false, not, ◌&&◌, ◌||◌, Option, none, some, List,
  [], ◌∷◌, ◌++◌, if◌then◌else◌, leb, ◌==◌, length, take, has, remove,
}
use corral.Queue.{Queue, make, empty, front, pop_front, push_back, append, pop_front_to}
use corral.ParkingLot.{Lot, vacant, do_suspend, unlink, unpark, unpark_all}

-- `ReadHalf` or `WriteHalf`. `claimed` are the awaiters whose claim bit is set.
pub record Half : Type 0 where
  pub lot : Lot
  pub open lot use *
  pub claims : ℕ
  pub claimed : List ℕ

pub record Channel (A : Type 0) : Type 0 where
  pub buf : Queue A
  pub closed : Bool
  pub bounded : Bool
  pub reads : Half
  pub writes : Half

-- `std::numeric_limits<size_t>::max()`
abbrev pub size_max : ℕ
size_max = 2 ^ 64 - 1

abbrev pub idle_half : Half
idle_half = record { lot = vacant; claims = 0; claimed = [] }

-- `AwaiterBase::claim` by awaiter `i`.
abbrev pub claim : ℕ → Half → Half
claim i h = record h { claims = h.claims + 1; claimed = i ∷ h.claimed }

-- `wakeAwaiters` of either half: `unclaimed` is its `unclaimedCount`, `ps` who is still parked.
unfoldable pub wake_each : (Half → ℕ) → List ℕ → Half → Half
unfolding unpark
wake_each unclaimed [] h = h
wake_each unclaimed (i ∷ is) h =
    if unclaimed h == 0
    then h
    else wake_each unclaimed is (record (claim i h) { lot = unpark i h.lot })

abbrev close_half : Half → Half
close_half h = record h { lot = unpark_all h.lot }

-- A test that `CORRAL_ASSERT` makes.
abbrev pub assert {ℓ} : {B : Type ℓ} → Bool → Option B → Option B
assert true r = r
assert false r = none

module _ {A : Type 0} where
  abbrev pub unbounded : Channel A
  unbounded = record {
    buf = make 0;
    closed = false;
    bounded = false;
    reads = idle_half;
    writes = idle_half;
  }

  -- `Channel(maxSize)`
  abbrev pub bounded_by : ℕ → Option (Channel A)
  bounded_by max_size = assert (not (max_size == 0)) (
      some (record {
        buf = make max_size;
        closed = false;
        bounded = true;
        reads = idle_half;
        writes = idle_half;
      }))

  -- `ReadHalf::size`, which is also its `unclaimedCount`
  abbrev pub size : Channel A → Half → ℕ
  size c h = c.buf.size - h.claims

  -- `WriteHalf::space`, which is also its `unclaimedCount`
  abbrev pub space : Channel A → Half → ℕ
  space c h =
      if c.closed
      then 0
      else if not c.bounded
      then size_max
      else c.buf.capacity - c.buf.size - h.claims

  abbrev pub really_full : Channel A → Bool
  really_full c = c.bounded && c.buf.capacity == c.buf.size

  unfoldable pub wake_reads : Channel A → Channel A
  unfolding wake_each
  wake_reads c = record c { reads = wake_each (size c) c.reads.parked c.reads }

  unfoldable pub wake_writes : Channel A → Channel A
  unfolding wake_each
  wake_writes c = record c { writes = wake_each (space c) c.writes.parked c.writes }

  abbrev pub drop_reads : ℕ → Channel A → Channel A
  drop_reads k c = record c { reads = record c.reads { claims = c.reads.claims - k } }

  abbrev pub drop_writes : ℕ → Channel A → Channel A
  drop_writes k c = record c { writes = record c.writes { claims = c.writes.claims - k } }

  -- `front` moved out, and `pop_front`.
  abbrev pub pop_one : Queue A → Option (A × Queue A)
  pop_one q = elim (front q) [
    | none ↦ none
    | some x ↦ elim (pop_front q) [ none ↦ none | some q' ↦ some (x, q') ]
  ]

  -- `ReadHalf::tryTransfer(claimedCount)`
  unfoldable pub read_one : ℕ → Channel A → Option (Option A × Channel A)
  unfolding wake_writes
  read_one k c = assert (leb k c.reads.claims) (
      if k == 0 && size c c.reads == 0
      then some (none, c)
      else assert (not (c.buf.size == 0)) (elim (pop_one c.buf) [
        | none ↦ none
        | some (x, q) ↦ some (some x, wake_writes (drop_reads k (record c { buf = q })))
      ]))

  -- `ReadHalf::tryTransfer(claimedCount, it, n)`, and the one for a range of `n` places: what is
  -- written there.
  unfoldable pub read_many : ℕ → ℕ → Channel A → Option (List A × Channel A)
  unfolding wake_writes
  read_many k wanted c =
      let n = min wanted (k + size c c.reads) in
      assert (leb k c.reads.claims) (
        if n == 0
        then some ([], c)
        else assert (not (c.buf.size == 0)) (elim (pop_front_to n c.buf) [
          | none ↦ none
          | some (xs, q) ↦ some (xs, wake_writes (drop_reads k (record c { buf = q })))
        ]))

  -- `WriteHalf::tryTransfer(claimedCount, value)`
  unfoldable pub write_one : ℕ → A → Channel A → Option (Bool × Channel A)
  unfolding wake_reads
  write_one k x c = assert (leb k c.writes.claims) (
      if k == 0 && space c c.writes == 0
      then some (false, c)
      else assert (not c.closed && not (really_full c))
          (some (true, wake_reads (record (drop_writes k c) { buf = push_back x c.buf }))))

  -- How many elements of a range `tryTransfer(claimedCount, begin, end)` may write.
  abbrev pub avail : ℕ → Channel A → ℕ
  avail k c = if c.bounded then k + space c c.writes else size_max

  -- `push_back` of each of at most `n` elements.
  unfoldable pub push_each : ℕ → List A → Queue A → Queue A
  push_each zero xs q = q
  push_each (suc n) [] q = q
  push_each (suc n) (x ∷ xs) q = push_each n xs (push_back x q)

  -- `WriteHalf::tryTransfer` of a range, with the way it fills the buffer as an argument: the
  -- number of elements written.
  unfoldable pub write_by :
      (ℕ → List A → Queue A → Queue A) → ℕ → List A → Channel A → Option (ℕ × Channel A)
  unfolding wake_reads
  write_by fill k xs c =
      let n = min (length xs) (avail k c) in
      assert (leb k c.writes.claims) (
        if length xs == 0
        then some (0, c)
        else if avail k c == 0
        then some (0, c)
        else assert (not c.closed && not (really_full c))
            (some (n, wake_reads (drop_writes k (record c { buf = fill n xs c.buf })))))

  -- A random access range is appended in one go.
  unfoldable pub write_many : ℕ → List A → Channel A → Option (ℕ × Channel A)
  unfolding write_by
  write_many = write_by (λ n xs q. append (take n xs) q)

  -- Any other range is pushed element by element.
  unfoldable pub write_each : ℕ → List A → Channel A → Option (ℕ × Channel A)
  unfolding write_by push_each
  write_each = write_by push_each

  unfoldable pub close : Channel A → Channel A
  unfolding unpark_all
  close c = record c { closed = true; reads = close_half c.reads; writes = close_half c.writes }
