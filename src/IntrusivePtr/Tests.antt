-- ===== src/IntrusivePtr/Tests.antt =====
-- Instances of the theorems about corral/detail/IntrusivePtr.h.
use corral.Base.{◌≡◌, refl, some, List, [], ◌∷◌, has}
use corral.IntrusivePtr.{replace, empty_store}
use corral.IntrusivePtr.Counts.{
  Call, adopts, copies, moves, assigns_copy, destroys, Inv, refs, perform, perform-Inv, all_allowed,
  step, allowed,
}

-- Two pointers to one object and one to another, of which the first and the third are then assigned
-- away: the second object is deleted.
abbrev calls : List Call
calls = adopts (some 5) ∷ copies 0 ∷ adopts (some 6) ∷ moves 0 ∷ assigns_copy 2 1 ∷ destroys 1 ∷ []

deletes_sixth : (perform calls empty_store).deleted ≡ 6 ∷ []
unfolding perform step replace
deletes_sixth = refl

empty_store-Inv : Inv empty_store
unfolding refs
empty_store-Inv = record { counted = λ o. refl; sound = λ o h. refl }

perform-Inv_example : Inv (perform calls empty_store)
unfolding all_allowed allowed step replace has
perform-Inv_example = perform-Inv calls empty_store empty_store-Inv refl

abbrev adopted : List Call
adopted = adopts (some 5) ∷ []
