-- ===== src/Mux/Immediate/Results.antt =====
-- The results of a combiner that is ready without a suspension (corral/detail/wait.h).
use corral.Base.{
  ℕ, zero, suc, ◌+◌, ◌≤◌, ◌<◌, ◌≡◌, refl, sym, subst, ap, ap₂, ◌∙◌, Bool, true, false, not, ◌&&◌,
  ◌||◌, Option, none, some, List, [], ◌∷◌, if◌then◌else◌, ◌==◌, leb, get_elem?, length, inl, inr,
  Bool-cases, arith,
}
use corral.Mux.{
  State, not_started, cancelled, succeeded, Awaiter, Child, Mux, size, start_all, fresh,
  unreachable,
}
use corral.Mux.Children.{is_done}
use corral.Mux.Immediate.{
  count_ready, ready_counts, await_ready, report, first_ready, report_others,
  resume_without_suspend, result, as_optional, collect, Outcome, an_error, results, await_resume,
  cons_result,
}
use corral.Mux.Immediate.Evolve.{fine_at, all_fine, has_result, fresh_at}
use corral.Mux.Immediate.Progress.{Holds, Progress, others-Progress, first-Progress}

abbrev pub ready_number : List Awaiter → ℕ
ready_number [] = 0
ready_number (a ∷ as_) = if a.await_ready then ready_number as_ + 1 else ready_number as_

abbrev pub skips : List Awaiter → Bool
skips [] = true
skips (a ∷ as_) = (a.await_ready || a.skippable) && skips as_

-- What can be skipped is cancelled early at once, as the concept Skippable demands.
abbrev pub keeps_word : List Awaiter → Bool
keeps_word [] = true
keeps_word (a ∷ as_) = (not a.skippable || a.await_early_cancel) && keeps_word as_

ready_counts-start :
    (as_ : List Awaiter) → ready_counts (start_all as_) ≡ some (ready_number as_, skips as_)
unfolding ready_counts
ready_counts-start [] = refl
ready_counts-start (a ∷ as_) =
    ap (count_ready (some a.await_ready) a.skippable) (ready_counts-start as_)

length-start : (as_ : List Awaiter) → length (start_all as_) ≡ length as_
length-start [] = refl
length-start (a ∷ as_) = ap suc (length-start as_)

ready_number-le : (as_ : List Awaiter) → ready_number as_ ≤ length as_
ready_number-le [] = omega arith
ready_number-le (a ∷ as_) = ground (arith, ready_number-le as_)

fine-start :
    (every e : Bool) (as_ : List Awaiter)
    → keeps_word as_ ≡ true
    → skips as_ ≡ true
    → (not every || (ready_number as_ == length as_)) ≡ true
    → all_fine every e (start_all as_) ≡ true
unfolding all_fine
fine-start every e [] k s h = refl
fine-start every e (a ∷ as_) k s h = ground (
  arith,
  k,
  s,
  h,
  ready_number-le as_,
  fine-start every e as_ (ground (arith, k)) (ground (arith, s))
      (ground (arith, h, ready_number-le as_)),
)

fresh-start : (as_ : List Awaiter) (j : ℕ) → fresh_at j (start_all as_) ≡ true
unfolding fresh_at
fresh-start [] j = refl
fresh-start (a ∷ as_) zero = refl
fresh-start (a ∷ as_) (suc j) = fresh-start as_ j

first_ready-start :
    (i : ℕ) (as_ : List Awaiter)
    → 0 < ready_number as_
    → (j : ℕ) × (a : Awaiter) × (first_ready i (start_all as_) ≡ some (i + j))
      × (get_elem? (start_all as_) j ≡ some (record { state = not_started; awaiter = a }))
      × (a.await_ready ≡ true)
unfolding first_ready
first_ready-start i [] h = absurd (omega (arith, h))
first_ready-start i (a ∷ as_) h = elim (Bool-cases a.await_ready) [
  | inl e ↦ (0, a, rw e (ap some (omega arith)), refl, e)
  | inr e ↦
      let (j, b, first, here, r) = first_ready-start (i + 1) as_ (ground (arith, h, e)) in
      (suc j, b, rw e (first ∙ ap some (omega arith)), here, r)
]

-- `result` if every child has to have one, else `asOptional`.
abbrev taken_by : Bool → State → Option Bool
taken_by every s = if every then result s else as_optional s

taken_total :
    (every : Bool) (a : Awaiter) (s : State)
    → fine_at every false a s ≡ true
    → is_done s ≡ true
    → (b : Bool) × (taken_by every s ≡ some b)
taken_total true a succeeded f d = (true, refl)
taken_total false a succeeded f d = (true, refl)
taken_total false a cancelled f d = (false, refl)
taken_total every a s f d = absurd (ground (arith, f, d))

collect-total :
    (every : Bool) (cs : List Child)
    → all_fine every false cs ≡ true
    → ((j : ℕ) → j < length cs → Holds is_done j cs)
    → (rs : List Bool) × (collect (taken_by every) cs ≡ some rs)
unfolding all_fine collect
collect-total every [] f h = ([], refl)
collect-total every (c ∷ cs) f h =
    let (rs, e) =
      collect-total every cs (ground (arith, f)) (λ j below. h (suc j) (omega (arith, below))) in
    let (d, here, done_now) = h 0 (omega arith) in
    let (b, g) =
      taken_total every c.awaiter c.state (ground (arith, f)) (ground (arith, here, done_now)) in
    (b ∷ rs, ap₂ cons_result g e)

-- The parent gets an error, or results.
outcome-total :
    (every : Bool) (r : ℕ) (n : Mux)
    → Progress every r (size n) (size n) n
    → (o : Outcome) × (await_resume (taken_by every) n ≡ some o)
unfolding await_resume
outcome-total every r n v = elim (Bool-cases n.error) [
  | inl e ↦ (an_error, rw e refl)
  | inr e ↦
      let (rs, f) =
        collect-total every n.children (subst (λ b. all_fine every b n.children ≡ true) e v.fine)
          (λ j below. v.finished j below below) in
      (results rs, rw (e, f) refl)
]

quiet :
    (every : Bool) (r i : ℕ) (m : Mux)
    → Progress every r i i m
    → Progress every r i i (record m { resumed = 0 })
quiet every r i m v = record {
  fine = v.fine;
  waits = v.waits;
  first = v.first;
  finished = v.finished;
  open_ = v.open_;
  sound = v.sound;
  same_size = v.same_size;
}

sized :
    (every : Bool) (r : ℕ) (m : Mux) {i : ℕ}
    → Progress every r i i m
    → Progress every r (size m) (size m) m
sized every r m v = subst (λ i. Progress every r i i m) (sym v.same_size) v

module _ (min_ready : ℕ) (as_ : List Awaiter) (word : keeps_word as_ ≡ true)
    (some_ : 0 < length as_) (wanted : 0 < min_ready)
    (ready_now : await_ready (fresh min_ready as_) ≡ some true) where
  enough : (leb min_ready (ready_number as_) && skips as_) ≡ true
  unfolding await_ready
  enough = ground (arith, ready_counts-start as_, length-start as_, ready_now, some_)

  settled : Option ℕ → Mux
  settled o = elim o [
    | none ↦ unreachable (fresh min_ready as_)
    | some r ↦ report_others r 0 (size (fresh min_ready as_)) (report r (fresh min_ready as_))
  ]

  progress :
      (every : Bool)
      → (not every || (min_ready == length as_)) ≡ true
      → (r : ℕ) × Progress every r
          (length as_)
          (length as_)
          (resume_without_suspend (fresh min_ready as_))
  unfolding resume_without_suspend settled
  progress every h =
      let m : Mux = fresh min_ready as_ in
      let (r, a, first, here, e) = first_ready-start 0 as_ (ground (arith, enough, wanted)) in
      let same = length-start as_ in
      let begun =
        first-Progress every r (length as_) m here e
          (fine-start every false as_ word (ground (arith, enough))
            (ground (arith, enough, h, ready_number-le as_)))
          (ground (arith, h, same)) (fresh-start as_) refl same in
      let v =
        others-Progress every r (length as_) 0 (size m) (report r m) (omega (arith, same)) begun in
      let found : first_ready 0 m.children ≡ some r = first ∙ ap some (omega arith) in
      (
        r,
        subst (λ o. Progress every r (length as_) (length as_) (record (settled o) { resumed = 0 }))
            (sym found)
            (quiet every r (length as_) (settled (some r)) (
              subst (λ n. Progress every r (length as_) n (settled (some r))) (omega (arith, same))
                v)),
      )

  -- A combiner of awaitables, at least one, that is ready without a suspension: where awaitables that can be
  -- skipped are cancelled early at once, taking its results fails no assertion; every awaitable is then
  -- cancelled, or has a value or an error, and one at least has a value or an error; anyOf and mostOf give
  -- an error, or for each awaitable what it has; and allOf, which wants as many as there are, gives an error
  -- or a value of each.
  pub resume_lem :
      let n = resume_without_suspend (fresh min_ready as_) in
      (n.broken ≡ false)
      × ((j : ℕ) → j < length as_ → Holds is_done j n.children)
      × ((r : ℕ) × Holds has_result r n.children)
      × ((o : Outcome) × (await_resume as_optional n ≡ some o))
      × (min_ready ≡ length as_ → (o : Outcome) × (await_resume result n ≡ some o))
  resume_lem =
      let (r, v) = progress false refl in
      let n : Mux = resume_without_suspend (fresh min_ready as_) in
      (
        v.sound,
        λ j below. v.finished j below below,
        (r, v.first),
        outcome-total false r n (sized false r n v),
        λ h.
            let (q, w) = progress true (ground (arith, h)) in
            outcome-total true q n (sized true q n w),
      )
