-- ===== src/Mux/Immediate/Progress.antt =====
-- The children of a combiner one after the other (corral/detail/wait.h).
use corral.Base.{
  ℕ, zero, suc, ◌+◌, ◌≤◌, ◌<◌, ◌≡◌, refl, subst, ap, ◌∙◌, Bool, true, false, some, List,
  if◌then◌else◌, ◌==◌, ==_iff, get_elem?, get_elem?-within, inl, inr, Bool-cases, Option-cases,
  arith,
}
use corral.Mux.{State, not_started, succeeded, Awaiter, Child, Mux, size}
use corral.Mux.Children.{is_done}
use corral.Mux.Immediate.{report, report_others}
use corral.Mux.Immediate.Evolve.{
  all_fine, Evolves, Evolves-get, Evolves-length, has_result, fresh_at, fresh-get,
}
use corral.Mux.Immediate.Settle.{waits_for, still_waits}
use corral.Mux.Immediate.Report.{report-Reports, report-ready}

-- The child at an index is in a state of a kind.
abbrev pub Holds : (State → Bool) → ℕ → List Child → Type 0
Holds p j cs = (d : Child) × (get_elem? cs j ≡ some d) × (p d.state ≡ true)

-- Before child `i` is looked at, after the first that was ready, `r`.
pub record Progress (every : Bool) (r total i : ℕ) (m : Mux) : Type 0 where
  pub fine : all_fine every m.error m.children ≡ true
  pub waits : waits_for every (λ j. false) m ≡ true
  pub first : Holds has_result r m.children
  pub finished : (j : ℕ) → j < i → j < total → Holds is_done j m.children
  pub open_ : (j : ℕ) → i ≤ j → (j == r) ≡ false → fresh_at j m.children ≡ true
  pub sound : m.broken ≡ false
  pub same_size : size m ≡ total

result_done : (s : State) → has_result s ≡ true → is_done s ≡ true
result_done succeeded h = refl
result_done s h = ground (arith, h)

module _ (every : Bool) (r total : ℕ) where
  skip-Progress :
      (i : ℕ) (m : Mux)
      → (i == r) ≡ true
      → Progress every r total i m
      → Progress every r total (i + 1) m
  skip-Progress i m e v = record {
    fine = v.fine;
    waits = v.waits;
    first = v.first;
    finished = λ j below within. elim (Bool-cases (j == r)) [
      | inl at ↦
          let (d, here, h) = v.first in
          (d, ap (get_elem? m.children) ((==_iff j r).0 at) ∙ here, result_done d.state h)
      | inr other ↦ v.finished j (ground (arith, below, e, other)) within
    ];
    open_ = λ j above other. v.open_ j (omega (arith, above)) other;
    sound = v.sound;
    same_size = v.same_size;
  }

  kept-Holds :
      (p : State → Bool) (j : ℕ) (cs ds : List Child)
      → ((s : State) → p s ≡ true → is_done s ≡ true)
      → Evolves cs ds
      → Holds p j cs
      → Holds p j ds
  kept-Holds p j cs ds last keep (d, here, h) =
      (d, Evolves-get j cs ds keep here (last d.state h), h)

  step-Progress :
      (i : ℕ) (m : Mux)
      → i < total
      → (i == r) ≡ false
      → Progress every r total i m
      → Progress every r total (i + 1) (report i m)
  step-Progress i m inside other v = elim (Option-cases (get_elem? m.children i)) [
    | inl out ↦
        absurd
          (ground (arith, get_elem?-within m.children i (omega (arith, inside, v.same_size)), out))
    | inr (c, here) ↦
        let none_yet = fresh-get i m.children here (v.open_ i (omega arith) other) in
        let (a, d, there, done_now) = report-Reports every i m here none_yet v.fine v.waits in
        let n : Mux = report i m in
        record {
          fine = a.fine;
          waits = still_waits every (λ j. j == i) a v.waits;
          first = kept-Holds has_result r m.children n.children result_done a.evolves v.first;
          finished = λ j below within. elim (Bool-cases (j == i)) [
            | inl at ↦ (d, ap (get_elem? n.children) ((==_iff j i).0 at) ∙ there, done_now)
            | inr before ↦
                kept-Holds is_done j m.children n.children (λ s h. h) a.evolves
                  (v.finished j (ground (arith, below, before)) within)
          ];
          open_ = λ j above apart.
              a.unreported j (ground (arith, above)) (v.open_ j (omega (arith, above)) apart);
          sound = a.sound ∙ v.sound;
          same_size = Evolves-length m.children n.children a.evolves ∙ v.same_size;
        }
  ]

  pub others-Progress :
      (i k : ℕ) (m : Mux)
      → i + k ≡ total
      → Progress every r total i m
      → Progress every r total (i + k) (report_others r i k m)
  unfolding report_others
  others-Progress i zero m e v = subst (λ j. Progress every r total j m) (omega arith) v
  others-Progress i (suc k) m e v =
      subst (λ j. Progress every r total j (report_others r i (suc k) m)) (omega arith)
        (others-Progress (i + 1) k (if i == r then m else report i m) (omega (arith, e)) next)
    where
      next : Progress every r total (i + 1) (if i == r then m else report i m)
      next = elim (Bool-cases (i == r)) [
        | inl at ↦ rw at (skip-Progress i m at v)
        | inr other ↦ rw other (step-Progress i m (omega (arith, e)) other v)
      ]

  -- The first that is ready reports its result.
  pub first-Progress :
      (m : Mux) {a : Awaiter}
      → get_elem? m.children r ≡ some (record { state = not_started; awaiter = a })
      → a.await_ready ≡ true
      → all_fine every m.error m.children ≡ true
      → waits_for every (λ j. false) m ≡ true
      → ((j : ℕ) → fresh_at j m.children ≡ true)
      → m.broken ≡ false
      → size m ≡ total
      → Progress every r total 0 (report r m)
  first-Progress m here e h w none_yet ok z =
      let (a, d, there, got) = report-ready every r m here e h w in
      record {
        fine = a.fine;
        waits = still_waits every (λ j. j == r) a w;
        first = (d, there, got);
        finished = λ j below within. absurd (omega (arith, below));
        open_ = λ j above apart. a.unreported j apart (none_yet j);
        sound = a.sound ∙ ok;
        same_size = Evolves-length m.children (report r m).children a.evolves ∙ z;
      }
