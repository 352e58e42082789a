-- ===== src/Semaphore/Tests.antt =====
-- Instances of the theorems about corral/Semaphore.h.
use corral.Base.{true, refl, [], ◌∷◌, has}
use corral.Semaphore.{Semaphore, await_suspend, try_acquire}
use corral.Semaphore.Runs.{
  Use, started, tries, suspends, releases, Reach, start, later, Inv, Reach-Inv, tried, released,
  suspended,
}

-- The lock is taken, awaiter 1 waits for it, and the lock is released to it.
abbrev taken : Use
taken = tried (started 1)

abbrev waited : Use
waited = suspended taken (true, record taken.sem { lot = record { parked = 1 ∷ []; resumed = [] } })

passed : Reach 1 (released waited)
unfolding try_acquire await_suspend has
passed = later (later (later start tries) (suspends 1 {r = (true, waited.sem)} refl)) releases

Reach-Inv_example : Inv 1 (released waited)
Reach-Inv_example = Reach-Inv passed

abbrev crowded : Semaphore
crowded = record { lot = record { parked = 4 ∷ 5 ∷ []; resumed = [] }; value = 0; borrowed = [] }
