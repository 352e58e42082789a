-- ===== src/ParkingLot/Laws.antt =====
-- What the operations of corral/detail/ParkingLot.h do to the order of the waiters.
use corral.Base.{
  ℕ, ◌⊎◌, inl, inr, ◌≡◌, refl, ◌∙◌, sym, none, some, List, [], ◌∷◌, ◌++◌, append_assoc, append-nil,
  remove, IsUnique, remove-IsUnique, has-remove_self, snoc-IsUnique, remove-head, arith,
}
use corral.ParkingLot.{Lot, do_suspend, peek, unpark_one, unpark_each, unpark_all}

pub unpark_each-append : (is resumed : List ℕ) → unpark_each is resumed ≡ resumed ++ is
unfolding unpark_each
unpark_each-append [] resumed = sym (append-nil resumed)
unpark_each-append (i ∷ is) resumed =
    unpark_each-append is (resumed ++ i ∷ []) ∙ append_assoc resumed (i ∷ []) is

-- `unparkAll` resumes all who wait, in the order in which they came, and leaves nobody.
pub unpark_all_lem :
    (l : Lot) → ((unpark_all l).parked ≡ []) × ((unpark_all l).resumed ≡ l.resumed ++ l.parked)
unfolding unpark_all
unpark_all_lem l = (refl, unpark_each-append l.parked l.resumed)

-- `unparkOne` resumes the longest waiter, the one that `peek` shows, and does nothing if nobody waits.
pub unpark_one_lem :
    (l : Lot)
    → ((l.parked ≡ []) × (peek l ≡ none) × (unpark_one l ≡ l))
      ⊎ ((i : ℕ) × (is : List ℕ) × (l.parked ≡ i ∷ is)
          × (peek l ≡ some i)
          × (unpark_one l ≡ record { parked = is; resumed = l.resumed ++ i ∷ [] }))
unfolding unpark_one peek
unpark_one_lem l = split l.parked refl
  where
    split :
        (ps : List ℕ)
        → l.parked ≡ ps
        → ((l.parked ≡ []) × (peek l ≡ none) × (unpark_one l ≡ l))
          ⊎ ((i : ℕ) × (is : List ℕ) × (l.parked ≡ i ∷ is)
              × (peek l ≡ some i)
              × (unpark_one l ≡ record { parked = is; resumed = l.resumed ++ i ∷ [] }))
    split [] e = inl (e, ground arith, ground arith)
    split (i ∷ is) e = inr (i, is, e, ground arith, ground (arith, remove-head i is))

-- Nobody waits twice.
pub do_suspend-IsUnique : (i : ℕ) (l : Lot) → IsUnique l.parked → IsUnique (do_suspend i l).parked
unfolding do_suspend
do_suspend-IsUnique i l u =
    snoc-IsUnique i (remove i l.parked) (remove-IsUnique i l.parked u)
      (has-remove_self i l.parked u)
