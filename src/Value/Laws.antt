-- ===== src/Value/Laws.antt =====
-- `modify` of corral/Value.h against a description of whom it resumes.
use corral.Base.{
  ◌≡◌, refl, Bool, true, false, not, List, [], ◌∷◌, ◌++◌, map, if◌then◌else◌, append-nil,
  append_assoc, Bool-cases, inl, inr,
}
use corral.Value.{
  Watch, until_matches, comparison, until_changed, Result, one, pair, Awaiter, Value, matches,
  on_changed, change_each, modify,
}

module _ {A : Type 0} where
  -- Whether a change is what an awaiter waits for.
  unfoldable pub wants : Watch A → A → A → Bool
  wants (until_matches fn) from to = fn to
  wants (comparison fn) from to = fn to
  wants (until_changed fn) from to = fn from to

  -- What an awaiter that is resumed by a change yields.
  unfoldable pub yields : Watch A → A → A → Result A → Result A
  yields (until_matches fn) from to r = one to
  yields (comparison fn) from to r = r
  yields (until_changed fn) from to r = pair from to

  abbrev pub served : A → A → Awaiter A → Awaiter A
  served from to a = record a { result = yields a.watch from to a.result }

  -- Those of a list that a test holds of.
  unfoldable pub those : (Awaiter A → Bool) → List (Awaiter A) → List (Awaiter A)
  those p [] = []
  those p (a ∷ as_) = let rest = those p as_ in if p a then a ∷ rest else rest

  pub matches_lem :
      (w : Watch A) (from to : A) (r : Result A)
      → matches w from to r ≡ (if wants w from to then (true, yields w from to r) else (false, r))
  unfolding matches wants yields
  matches_lem (until_matches fn) from to r = refl
  matches_lem (comparison fn) from to r = elim (Bool-cases (fn to)) [
    | inl e ↦ rw e refl
    | inr e ↦ rw e refl
  ]
  matches_lem (until_changed fn) from to r = refl

  pub on_changed-wanted :
      (a : Awaiter A) (from to : A) (v : Value A)
      → wants a.watch from to ≡ true
      → on_changed a from to v ≡ record v { resumed = v.resumed ++ served from to a ∷ [] }
  unfolding on_changed
  on_changed-wanted a from to v e = rw (matches_lem a.watch from to a.result, e) refl

  pub on_changed-unwanted :
      (a : Awaiter A) (from to : A) (v : Value A)
      → wants a.watch from to ≡ false
      → on_changed a from to v ≡ record v { parked = v.parked ++ a ∷ [] }
  unfolding on_changed
  on_changed-unwanted a from to v e = rw (matches_lem a.watch from to a.result, e) refl

  abbrev pub resumes : A → A → List (Awaiter A) → List (Awaiter A)
  resumes from to as_ = map (served from to) (those (λ a. wants a.watch from to) as_)

  abbrev pub keeps : A → A → List (Awaiter A) → List (Awaiter A)
  keeps from to as_ = those (λ a. not (wants a.watch from to)) as_

  change_each_lem :
      (as_ : List (Awaiter A)) (from to : A) (v : Value A)
      → change_each as_ from to v ≡ record v {
        parked = v.parked ++ keeps from to as_;
        resumed = v.resumed ++ resumes from to as_;
      }
  unfolding change_each those
  change_each_lem [] from to v = rw (append-nil v.parked, append-nil v.resumed) refl
  change_each_lem (a ∷ as_) from to v = elim (Bool-cases (wants a.watch from to)) [
    | inl e ↦
        rw
          (
            on_changed-wanted a from to v e,
            e,
            change_each_lem as_ from to (record v { resumed = v.resumed ++ served from to a ∷ [] }),
            append_assoc v.resumed (served from to a ∷ []) (resumes from to as_),
          )
          refl
    | inr e ↦
        rw
          (
            on_changed-unwanted a from to v e,
            e,
            change_each_lem as_ from to (record v { parked = v.parked ++ a ∷ [] }),
            append_assoc v.parked (a ∷ []) (keeps from to as_),
          )
          refl
  ]

  -- A change resumes exactly those who wait for it, in the order in which they parked and each with
  -- what it waits for, keeps the others waiting in their order, and returns the new value.
  pub modify_lem :
      (fn : A → A) (v : Value A)
      → modify fn v ≡ (
        fn v.value,
        record {
          value = fn v.value;
          parked = keeps v.value (fn v.value) v.parked;
          resumed = v.resumed ++ resumes v.value (fn v.value) v.parked;
        },
      )
  unfolding modify
  modify_lem fn v =
      rw
        (change_each_lem v.parked v.value (fn v.value)
          (record v { value = fn v.value; parked = [] }))
        refl
