-- ===== src/Mux/Early.antt =====
-- An awaitable that is cancelled when `await_suspend` (corral/detail/wait.h) comes to start it.
use corral.Base.{
  ℕ, zero, suc, ◌+◌, ◌<◌, ◌≡◌, false, not, ◌&&◌, ◌==◌, some, if◌then◌else◌, get_elem?, arith,
}
use corral.Mux.{cancelled, Awaiter, Mux, size, at_child, invoke, suspend_from}
use corral.Mux.Children.{done}
use corral.Mux.Resumption.{Inv}

-- The children are as before, one more is counted, and a full count resumes the parent.
pub record CountedAgain (m n : Mux) : Type 0 where
  pub same_children : n.children ≡ m.children
  pub too_many : n.count ≡ done n.children + 1
  pub resumption : n.resumed ≡ (if done n.children + 1 == size n then 1 else m.resumed)

invoke-CountedAgain :
    (fuel : ℕ) (m : Mux)
    → 0 < fuel
    → Inv m
    → (m.count + 1 == m.min_ready) && not (m.count + 1 == size m) ≡ false
    → CountedAgain m (invoke fuel false m)
unfolding invoke
invoke-CountedAgain zero m z v few = absurd (omega (arith, z))
invoke-CountedAgain (suc fuel) m z v few = record {
  same_children = ground (arith, few);
  too_many = ground (arith, few, v.counted);
  resumption = ground (arith, few, v.counted, v.resumption);
}

-- MuxHelper::suspend comes to an awaitable that is cancelled, in a state in which every awaitable that is
-- done was counted once, and one more makes the count full or does not make it the one that cancels the
-- rest. Then the count is one more than the number of awaitables that are done, none of which has changed;
-- and the parent is resumed once if all but one are done, so before the last of them is, and else is as it was.
pub suspend_from-counts_again :
    (i : ℕ) (a : Awaiter) (m : Mux)
    → Inv m
    → get_elem? m.children i ≡ some (record { state = cancelled; awaiter = a })
    → (m.count + 1 == m.min_ready) && not (m.count + 1 == size m) ≡ false
    → CountedAgain m (at_child i (suspend_from i) m)
unfolding suspend_from
suspend_from-counts_again i a m v here few =
    rw (here, at_child) (invoke-CountedAgain (size m + 1) m (omega arith) v few)
