-- ===== src/Mux/Immediate/Evolve.antt =====
-- How the children of a combiner change while their results are taken without a suspension
-- (corral/detail/wait.h).
use corral.Base.{
  ℕ, zero, suc, ◌≡◌, refl, ap, ◌∙◌, Bool, true, false, not, ◌&&◌, ◌||◌, ◌==◌, some, List, [], ◌∷◌,
  get_elem?, length, arith,
}
use corral.Mux.{
  State, not_started, cancellation_pending, cancelled, succeeded, failed, Awaiter, Child, set,
}
use corral.Mux.Children.{is_done}

-- What a child may be in, by whether there is an error. With `every`, a child is cancelled only if there is.
abbrev pub fine_at : Bool → Bool → Awaiter → State → Bool
fine_at every e a not_started = a.await_ready || not every && a.await_early_cancel
fine_at every e a cancellation_pending = not every || e
fine_at every e a cancelled = not every || e
fine_at every e a succeeded = true
fine_at every e a failed = e
fine_at every e a _ = false

unfoldable pub all_fine : Bool → Bool → List Child → Bool
all_fine every e [] = true
all_fine every e (c ∷ cs) = fine_at every e c.awaiter c.state && all_fine every e cs

-- The children keep their awaiters, and those that are done their states.
abbrev pub Evolves : List Child → List Child → Type 0
Evolves [] [] = Unit {0}
Evolves [] (d ∷ ds) = ⊥
Evolves (c ∷ cs) [] = ⊥
Evolves (c ∷ cs) (d ∷ ds) =
    (d.awaiter ≡ c.awaiter) × (is_done c.state ≡ true → d.state ≡ c.state) × Evolves cs ds

pub Evolves-refl : (cs : List Child) → Evolves cs cs
Evolves-refl [] = tt
Evolves-refl (c ∷ cs) = (refl, λ h. refl, Evolves-refl cs)

pub Evolves-trans : (bs cs ds : List Child) → Evolves bs cs → Evolves cs ds → Evolves bs ds
Evolves-trans [] [] [] p q = tt
Evolves-trans [] [] (d ∷ ds) p q = q
Evolves-trans [] (c ∷ cs) ds p q = absurd p
Evolves-trans (b ∷ bs) [] ds p q = absurd p
Evolves-trans (b ∷ bs) (c ∷ cs) [] p q = absurd q
Evolves-trans (b ∷ bs) (c ∷ cs) (d ∷ ds) p q =
    (q.0 ∙ p.0, λ h. q.1 (ap is_done (p.1 h) ∙ h) ∙ p.1 h, Evolves-trans bs cs ds p.2 q.2)

pub Evolves-set :
    (i : ℕ) (s : State) (cs : List Child) {c : Child}
    → get_elem? cs i ≡ some c
    → is_done c.state ≡ false
    → Evolves cs (set i s cs)
unfolding set
Evolves-set i s [] e h = tt
Evolves-set zero s (d ∷ cs) e h = (refl, λ k. ground (arith, e, h, k), Evolves-refl cs)
Evolves-set (suc i) s (d ∷ cs) e h = (refl, λ k. refl, Evolves-set i s cs e h)

pub Evolves-length : (cs ds : List Child) → Evolves cs ds → length ds ≡ length cs
Evolves-length [] [] p = refl
Evolves-length [] (d ∷ ds) p = absurd p
Evolves-length (c ∷ cs) [] p = absurd p
Evolves-length (c ∷ cs) (d ∷ ds) p = ap suc (Evolves-length cs ds p.2)

-- The state of a child that is done stays.
pub Evolves-get :
    (i : ℕ) (cs ds : List Child) {c : Child}
    → Evolves cs ds
    → get_elem? cs i ≡ some c
    → is_done c.state ≡ true
    → get_elem? ds i ≡ some c
Evolves-get i [] ds p e h = absurd (ground (arith, e))
Evolves-get i (b ∷ cs) [] p e h = absurd p
Evolves-get zero (b ∷ cs) (d ∷ ds) p e h = ground (arith, p.0, p.1, e, h)
Evolves-get (suc i) (b ∷ cs) (d ∷ ds) p e h = Evolves-get i cs ds p.2 e h

pub fine-get :
    (every e : Bool) (i : ℕ) (cs : List Child) {c : Child}
    → get_elem? cs i ≡ some c
    → all_fine every e cs ≡ true
    → fine_at every e c.awaiter c.state ≡ true
unfolding all_fine
fine-get every e i [] q h = absurd (ground (arith, q))
fine-get every e zero (d ∷ cs) q h = ground (arith, q, h)
fine-get every e (suc i) (d ∷ cs) q h = fine-get every e i cs q (ground (arith, h))

pub fine-set :
    (every e : Bool) (i : ℕ) (s : State) (cs : List Child) {c : Child}
    → get_elem? cs i ≡ some c
    → fine_at every e c.awaiter s ≡ true
    → all_fine every e cs ≡ true
    → all_fine every e (set i s cs) ≡ true
unfolding all_fine set
fine-set every e i s [] q f h = refl
fine-set every e zero s (d ∷ cs) q f h = ground (arith, q, f, h)
fine-set every e (suc i) s (d ∷ cs) q f h = ground (arith, fine-set every e i s cs q f, h)

fine_at-error :
    (every e : Bool) (a : Awaiter) (s : State)
    → fine_at every e a s ≡ true
    → fine_at every true a s ≡ true
fine_at-error every e a not_started h = h
fine_at-error every e a s h = ground (arith, h)

-- An error that appears leaves it fine.
pub fine-error :
    (every e f : Bool) (cs : List Child)
    → all_fine every e cs ≡ true
    → (not e || f) ≡ true
    → all_fine every f cs ≡ true
unfolding all_fine
fine-error every e true [] h k = refl
fine-error every e true (c ∷ cs) h k = ground (
  arith,
  fine_at-error every e c.awaiter c.state (ground (arith, h)),
  fine-error every e true cs (ground (arith, h)) k,
)
fine-error every true false cs h k = absurd (ground (arith, k))
fine-error every false false cs h k = h

abbrev pub has_result : State → Bool
has_result succeeded = true
has_result failed = true
has_result _ = false

-- The child at an index has reported no result.
unfoldable pub fresh_at : ℕ → List Child → Bool
fresh_at j [] = true
fresh_at zero (c ∷ cs) = not (has_result c.state)
fresh_at (suc j) (c ∷ cs) = fresh_at j cs

pub fresh_at-set :
    (i j : ℕ) (s : State) (cs : List Child)
    → (j == i && has_result s) ≡ false
    → fresh_at j cs ≡ true
    → fresh_at j (set i s cs) ≡ true
unfolding fresh_at set
fresh_at-set i j s [] e h = h
fresh_at-set zero zero s (c ∷ cs) e h = ground (arith, e)
fresh_at-set zero (suc j) s (c ∷ cs) e h = h
fresh_at-set (suc i) zero s (c ∷ cs) e h = h
fresh_at-set (suc i) (suc j) s (c ∷ cs) e h = fresh_at-set i j s cs (ground (arith, e)) h

pub fresh-get :
    (j : ℕ) (cs : List Child) {c : Child}
    → get_elem? cs j ≡ some c
    → fresh_at j cs ≡ true
    → has_result c.state ≡ false
unfolding fresh_at
fresh-get j [] e h = absurd (ground (arith, e))
fresh-get zero (d ∷ cs) e h = ground (arith, e, h)
fresh-get (suc j) (d ∷ cs) e h = fresh-get j cs e h
