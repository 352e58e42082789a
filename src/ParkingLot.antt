-- ===== src/ParkingLot.antt =====
-- corral/detail/ParkingLot.h: the intrusive wait queue behind Event, Semaphore, ParkingLot and
-- Channel, with the list operations of corral/detail/IntrusiveList.h that it uses.
-- An awaiter is a number, its address; the links of the intrusive list are the list `parked`.
-- `handle_.resume()` hands the task to the executor, which runs it at a later step: `resumed` is
-- the order in which that happens.
pub mod Laws
mod Tests
use corral.Base.{ℕ, Bool, true, false, Option, none, some, List, [], ◌∷◌, ◌++◌, has, remove}

pub record Lot : Type 0 where
  pub parked : List ℕ
  pub resumed : List ℕ

-- The constructor.
abbrev pub vacant : Lot
vacant = record { parked = []; resumed = [] }

-- `IntrusiveListItem::unlink`, also for an awaiter that is in no list.
unfoldable pub unlink : ℕ → Lot → Lot
unfolding remove
unlink i l = record l { parked = remove i l.parked }

-- `doSuspend`: `push_back` unlinks the item first.
unfoldable pub do_suspend : ℕ → Lot → Lot
unfolding remove
do_suspend i l = record l { parked = remove i l.parked ++ i ∷ [] }

-- `Parked::await_cancel`, which always succeeds: `std::true_type`.
unfoldable pub await_cancel : ℕ → Lot → Lot × Bool
unfolding unlink
await_cancel i l = (unlink i l, true)

unfoldable pub unpark : ℕ → Lot → Lot
unfolding remove
unpark i l = record { parked = remove i l.parked; resumed = l.resumed ++ i ∷ [] }

-- The first item of a list.
abbrev pub first : List ℕ → Option ℕ
first [] = none
first (i ∷ is) = some i

unfoldable pub peek : Lot → Option ℕ
peek l = first l.parked

unfoldable pub empty : Lot → Bool
empty l = elim l.parked [ [] ↦ true | i ∷ is ↦ false ]

unfoldable pub unpark_one : Lot → Lot
unfolding unpark
unpark_one l = elim l.parked [ [] ↦ l | i ∷ is ↦ unpark i l ]

-- The loop of `unparkAll` over the list that it moved out of the lot.
unfoldable pub unpark_each : List ℕ → List ℕ → List ℕ
unpark_each [] resumed = resumed
unpark_each (i ∷ is) resumed = unpark_each is (resumed ++ i ∷ [])

-- Who parks while the loop runs is not in the list that was moved out.
unfoldable pub unpark_all : Lot → Lot
unfolding unpark_each
unpark_all l = record { parked = []; resumed = unpark_each l.parked l.resumed }
