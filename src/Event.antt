-- ===== src/Event.antt =====
-- corral/Event.h: a flag that is raised once, with a wait queue.
pub mod Runs
mod Tests
use corral.Base.{ℕ, Bool, true, false, if◌then◌else◌}
use corral.ParkingLot.{Lot, vacant, do_suspend, unlink, unpark_all}

pub record Event : Type 0 where
  pub lot : Lot
  pub open lot use *
  pub triggered : Bool

abbrev pub fresh : Event
fresh = record { lot = vacant; triggered = false }

unfoldable pub trigger : Event → Event
unfolding unpark_all
trigger e = record { lot = unpark_all e.lot; triggered = true }

-- `Awaiter::await_ready`, and what `operator bool` and `triggered` say.
abbrev pub await_ready : Event → Bool
await_ready e = e.triggered

unfoldable pub await_suspend : ℕ → Event → Event
unfolding do_suspend
await_suspend i e = record e { lot = do_suspend i e.lot }

unfoldable pub await_cancel : ℕ → Event → Event
unfolding unlink
await_cancel i e = record e { lot = unlink i e.lot }

-- `co_await event` up to the suspension: an awaiter that is ready does not suspend.
unfoldable pub await : ℕ → Event → Event
unfolding await_suspend
await i e = if await_ready e then e else await_suspend i e
