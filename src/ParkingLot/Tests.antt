-- ===== src/ParkingLot/Tests.antt =====
-- Instances of the theorems about corral/detail/ParkingLot.h.
use corral.Base.{◌≡◌, refl, [], ◌∷◌}
use corral.ParkingLot.{Lot, do_suspend, unpark_all}
use corral.ParkingLot.Laws.{unpark_all_lem}

abbrev two_waiting : Lot
two_waiting = record { parked = 4 ∷ 5 ∷ []; resumed = 3 ∷ [] }

-- Parking again moves a waiter to the end.
parks_last : (do_suspend 4 two_waiting).parked ≡ 5 ∷ 4 ∷ []
unfolding do_suspend
parks_last = refl

unpark_all_lem_run :
    ((unpark_all two_waiting).parked ≡ []) × ((unpark_all two_waiting).resumed ≡ 3 ∷ 4 ∷ 5 ∷ [])
unpark_all_lem_run = unpark_all_lem two_waiting
