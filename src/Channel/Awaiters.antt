-- ===== src/Channel/Awaiters.antt =====
-- The awaiters of corral/Channel.h, for either half: `AwaiterBase` and `Awaiter`. A claim is made at
-- construction, in `await_suspend` or by `wakeAwaiters`, and used in `await_resume` or given back by
-- the destructor.
use corral.Base.{
  ℕ, ◌-◌, Bool, true, false, not, ◌&&◌, ◌||◌, Option, some, List, if◌then◌else◌, ◌==◌, length, has,
  remove,
}
use corral.ParkingLot.{do_suspend, unlink}
use corral.Channel.{
  Half, Channel, claim, assert, size, space, wake_reads, wake_writes, read_one, read_many,
  write_one, write_many,
}

pub data Side : Type 0 where
  reading : Side
  writing : Side

-- `setBits(0)`
abbrev pub unset : ℕ → Half → Half
unset i h = record h { claimed = remove i h.claimed }

module _ {A : Type 0} where
  -- `object()`
  abbrev pub half : Side → Channel A → Half
  half reading c = c.reads
  half writing c = c.writes

  abbrev pub put : Side → Half → Channel A → Channel A
  put reading h c = record c { reads = h }
  put writing h c = record c { writes = h }

  abbrev pub unclaimed : Side → Channel A → ℕ
  unclaimed reading c = size c c.reads
  unclaimed writing c = space c c.writes

  abbrev pub wake : Side → Channel A → Channel A
  wake reading c = wake_reads c
  wake writing c = wake_writes c

  -- The constructor of `Awaiter`: it claims at once if it can.
  unfoldable pub construct : Side → ℕ → Bool → Channel A → Channel A
  construct s i noop c =
      if not (unclaimed s c == 0) && not noop then put s (claim i (half s c)) c else c

  unfoldable pub ready : Side → ℕ → Bool → Channel A → Bool
  unfolding has
  ready s i noop c = has i (half s c).claimed || c.closed || noop

  -- `await_suspend`: whether the task is suspended.
  unfoldable pub await_suspend : Side → ℕ → Channel A → Option (Bool × Channel A)
  unfolding do_suspend has
  await_suspend s i c = assert (not (has i (half s c).claimed)) (
      if not (unclaimed s c == 0)
      then some (false, put s (claim i (half s c)) c)
      else some (true, put s (record (half s c) { lot = do_suspend i (half s c).lot }) c))

  unfoldable pub await_cancel : Side → ℕ → Channel A → Channel A
  unfolding unlink
  await_cancel s i c = put s (record (half s c) { lot = unlink i (half s c).lot }) c

  -- The destructor: a claim that was not used is given back.
  unfoldable pub destroy : Side → ℕ → Channel A → Channel A
  unfolding has unlink remove wake_reads wake_writes
  destroy s i c =
      let h = half s c in
      let d =
        if has i h.claimed
        then wake s (put s (record (unset i h) { claims = h.claims - 1 }) c)
        else c in
      put s (record (half s d) { lot = unlink i (half s d).lot }) d

  abbrev pub claimed_count : Side → ℕ → Channel A → ℕ
  claimed_count s i c = if has i (half s c).claimed then 1 else 0

  -- `await_resume` of a `receive()`, of a `receive` into a range, and of the two forms of `send`.
  unfoldable pub resume_read : ℕ → Channel A → Option (Option A × Channel A)
  unfolding ready read_one remove
  resume_read i c =
      assert (ready reading i false c)
        (read_one (claimed_count reading i c) (put reading (unset i c.reads) c))

  unfoldable pub resume_read_many : ℕ → ℕ → Channel A → Option (List A × Channel A)
  unfolding ready read_many remove
  resume_read_many i n c =
      assert (ready reading i (n == 0) c)
        (read_many (claimed_count reading i c) n (put reading (unset i c.reads) c))

  unfoldable pub resume_write : ℕ → A → Channel A → Option (Bool × Channel A)
  unfolding ready write_one remove
  resume_write i x c =
      assert (ready writing i false c)
        (write_one (claimed_count writing i c) x (put writing (unset i c.writes) c))

  unfoldable pub resume_write_many : ℕ → List A → Channel A → Option (ℕ × Channel A)
  unfolding ready write_many remove
  resume_write_many i xs c =
      assert (ready writing i (length xs == 0) c)
        (write_many (claimed_count writing i c) xs (put writing (unset i c.writes) c))
