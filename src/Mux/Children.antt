-- ===== src/Mux/Children.antt =====
-- The children of a combiner that are done (corral/detail/wait.h).
use corral.Base.{
  ℕ, zero, suc, ◌+◌, ◌≤◌, ◌<◌, ◌≡◌, refl, ap, Bool, true, false, some, List, [], ◌∷◌, length,
  get_elem?, arith,
}
use corral.Mux.{
  State, not_started, cancellation_pending, running, cancelling, cancelled, ready, succeeded,
  failed, Child, set, is_cancelled, cancelled_at,
}

abbrev pub is_done : State → Bool
is_done cancelled = true
is_done succeeded = true
is_done failed = true
is_done _ = false

abbrev pub to_ℕ : Bool → ℕ
to_ℕ true = 1
to_ℕ false = 0

unfoldable pub done : List Child → ℕ
done [] = 0
done (c ∷ cs) = to_ℕ (is_done c.state) + done cs

pub done-le-length : (cs : List Child) → done cs ≤ length cs
unfolding done
done-le-length [] = omega arith
done-le-length (c ∷ cs) = ground (arith, done-le-length cs)

pub length-set : (i : ℕ) (s : State) (cs : List Child) → length (set i s cs) ≡ length cs
unfolding set
length-set i s [] = refl
length-set zero s (c ∷ cs) = refl
length-set (suc i) s (c ∷ cs) = ap suc (length-set i s cs)

-- Setting the state of a child that is not done counts it if the new state is done.
pub done-set :
    (i : ℕ) (s : State) (cs : List Child) {c : Child}
    → get_elem? cs i ≡ some c
    → is_done c.state ≡ false
    → done (set i s cs) ≡ to_ℕ (is_done s) + done cs
unfolding done set
done-set i s [] e h = ground arith
done-set zero s (c ∷ cs) e h = ground arith
done-set (suc i) s (c ∷ cs) e h = omega (arith, done-set i s cs e h)

pub get_elem?-set :
    (i : ℕ) (s : State) (cs : List Child) {c : Child}
    → get_elem? cs i ≡ some c
    → get_elem? (set i s cs) i ≡ some (record c { state = s })
unfolding set
get_elem?-set i s [] e = ground arith
get_elem?-set zero s (c ∷ cs) e = ground arith
get_elem?-set (suc i) s (c ∷ cs) e = get_elem?-set i s cs e

pub set-set : (i : ℕ) (s t : State) (cs : List Child) → set i t (set i s cs) ≡ set i t cs
unfolding set
set-set i s t [] = refl
set-set zero s t (c ∷ cs) = refl
set-set (suc i) s t (c ∷ cs) = ap (◌∷◌ c) (set-set i s t cs)

-- A child that is not done is missing in the number of those that are.
pub done-lt-length :
    (i : ℕ) (cs : List Child) {c : Child}
    → get_elem? cs i ≡ some c
    → is_done c.state ≡ false
    → done cs < length cs
unfolding done
done-lt-length i [] e h = ground arith
done-lt-length zero (c ∷ cs) e h = ground (arith, done-le-length cs)
done-lt-length (suc i) (c ∷ cs) e h = ground (arith, done-lt-length i cs e h)

cancelled-done : (s : State) → is_cancelled s ≡ true → is_done s ≡ true
cancelled-done cancelled e = refl
cancelled-done not_started e = ground arith
cancelled-done cancellation_pending e = ground arith
cancelled-done running e = ground arith
cancelled-done cancelling e = ground arith
cancelled-done ready e = ground arith
cancelled-done succeeded e = refl
cancelled-done failed e = refl

-- Setting the state of a child that is not done leaves those that are cancelled.
pub cancelled_at-set :
    (i j : ℕ) (s : State) (cs : List Child) {c : Child}
    → get_elem? cs i ≡ some c
    → is_done c.state ≡ false
    → cancelled_at j cs ≡ true
    → cancelled_at j (set i s cs) ≡ true
unfolding cancelled_at set
cancelled_at-set i j s [] e h k = k
cancelled_at-set zero zero s (d ∷ cs) e h k = ground (arith, cancelled-done d.state k)
cancelled_at-set zero (suc j) s (d ∷ cs) e h k = k
cancelled_at-set (suc i) zero s (d ∷ cs) e h k = k
cancelled_at-set (suc i) (suc j) s (d ∷ cs) e h k = cancelled_at-set i j s cs e h k

pub cancelled_at-here :
    (i : ℕ) (cs : List Child) {c : Child}
    → get_elem? cs i ≡ some c
    → is_cancelled c.state ≡ true
    → cancelled_at i cs ≡ true
unfolding cancelled_at
cancelled_at-here i [] e h = ground arith
cancelled_at-here zero (d ∷ cs) e h = ground (arith, e)
cancelled_at-here (suc i) (d ∷ cs) e h = cancelled_at-here i cs e h
