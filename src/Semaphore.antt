-- ===== src/Semaphore.antt =====
-- corral/Semaphore.h: a counter with a wait queue. An awaiter that took the count at construction
-- keeps a bit for it; the awaiters with that bit are `borrowed`. `none` is a failed CORRAL_ASSERT.
pub mod Runs
mod Tests
use corral.Base.{
  ℕ, ◌+◌, ◌-◌, Bool, true, false, not, Option, none, some, List, [], ◌∷◌, if◌then◌else◌, ◌==◌, has,
  remove,
}
use corral.ParkingLot.{Lot, vacant, empty, do_suspend, unlink, unpark_one}

pub record Semaphore : Type 0 where
  pub lot : Lot
  pub open lot use *
  pub value : ℕ
  pub borrowed : List ℕ

abbrev pub make : ℕ → Semaphore
make initial = record { lot = vacant; value = initial; borrowed = [] }

unfoldable pub try_acquire : Semaphore → Bool × Semaphore
try_acquire s = if s.value == 0 then (false, s) else (true, record s { value = s.value - 1 })

-- The count goes to a waiter if there is one, and is not touched.
unfoldable pub release : Semaphore → Semaphore
unfolding empty unpark_one
release s =
    if empty s.lot then record s { value = s.value + 1 } else record s { lot = unpark_one s.lot }

-- The constructor of `Awaiter`.
unfoldable pub construct : ℕ → Semaphore → Semaphore
unfolding try_acquire
construct i s =
    let (taken, t) = try_acquire s in if taken then record t { borrowed = i ∷ t.borrowed } else t

unfoldable pub await_ready : ℕ → Semaphore → Bool
unfolding has
await_ready i s = has i s.borrowed

-- Whether the task is suspended.
unfoldable pub await_suspend : ℕ → Semaphore → Option (Bool × Semaphore)
unfolding has try_acquire do_suspend
await_suspend i s =
    let (taken, t) = try_acquire s in
    if has i s.borrowed
    then none
    else if taken
    then some (false, t)
    else some (true, record s { lot = do_suspend i s.lot })

-- `setBits(0)`; the count is the caller's from here on.
unfoldable pub await_resume : ℕ → Semaphore → Semaphore
unfolding remove
await_resume i s = record s { borrowed = remove i s.borrowed }

unfoldable pub await_cancel : ℕ → Semaphore → Semaphore
unfolding unlink
await_cancel i s = record s { lot = unlink i s.lot }

-- The destructor gives a borrowed count back, and unlinks.
unfoldable pub destroy : ℕ → Semaphore → Semaphore
unfolding has remove release await_cancel
destroy i s =
    await_cancel i
      (if has i s.borrowed then release (record s { borrowed = remove i s.borrowed }) else s)

-- The destructor of a `Lock` that holds its semaphore.
unfoldable pub unlock : Semaphore → Semaphore
unfolding release
unlock s = release s
