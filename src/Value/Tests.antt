-- ===== src/Value/Tests.antt =====
-- Instances of the theorems about corral/Value.h.
use corral.Base.{ℕ, ◌+◌, ◌-◌, ◌≡◌, refl, Bool, true, false, List, [], ◌∷◌, ◌==◌, ltb}
use corral.Value.{
  Watch, until_matches, comparison, until_changed, pair, Awaiter, Value, holding, construct,
  await_ready, await_suspend, modify, set, postfix, assign_by,
}
use corral.Value.Laws.{those, wants, yields, modify_lem}
use corral.Value.Runs.{Call, awaits, cancels, modifies, run, run-Inv, Inv, all, waits, set-stale}

abbrev above_two : Watch ℕ
above_two = comparison (λ n. ltb 2 n)

abbrev falls : Watch ℕ
falls = until_changed (λ from to. ltb to from)

abbrev first_waiting : Awaiter ℕ
first_waiting = construct 7 above_two (holding 1)

abbrev second_waiting : Awaiter ℕ
second_waiting = construct 8 falls (holding 1)

abbrev two_waiting : Value ℕ
two_waiting = await_suspend second_waiting (await_suspend first_waiting (holding 1))

-- A rise to 3 resumes the first only, and the fall that follows the second.
rise_then_fall : (modify (λ n. n - 3) (modify (λ n. n + 2) two_waiting).1).1 ≡ record {
  value = 0;
  parked = [];
  resumed = first_waiting ∷ record second_waiting { result = pair 3 0 } ∷ [];
}
unfolding modify
rise_then_fall = refl

-- The operator after the value returns the old one.
postfix_old : (postfix (λ n. n + 1) two_waiting).0 ≡ 1
postfix_old = refl

assign_by_new : (assign_by (λ m n. m + n) 4 two_waiting).0 ≡ 5
unfolding modify
assign_by_new = refl

abbrev calls : List (Call ℕ)
calls =
    awaits 1 above_two
    ∷ awaits 2 falls
    ∷ awaits 3 (until_matches (λ n. n == 4))
    ∷ modifies (λ n. n + 4)
    ∷ cancels 2
    ∷ []

abbrev zero_held : Value ℕ
zero_held = holding 0

zero_held-Inv : Inv zero_held
unfolding all
zero_held-Inv = record { waiting = refl; satisfied = refl }

run-Inv_example : Inv (run calls zero_held)
run-Inv_example = run-Inv calls zero_held-Inv

modify_lem_test :
    modify (λ n. n + 2) two_waiting
    ≡ (3, record { value = 3; parked = second_waiting ∷ []; resumed = first_waiting ∷ [] })
unfolding those wants yields
modify_lem_test = modify_lem (λ n. n + 2) two_waiting

abbrev is_four : ℕ → Bool
is_four n = n == 4

abbrev stale : Awaiter ℕ
stale = construct 9 (until_matches is_four) two_waiting

set-stale_example :
    (await_ready stale (set 4 two_waiting) ≡ false)
    × (await_ready (construct 9 (comparison is_four) two_waiting) (set 4 two_waiting) ≡ true)
    × (all (waits (set 4 two_waiting).value) (await_suspend stale (set 4 two_waiting)).parked
        ≡ false)
set-stale_example = set-stale is_four 9 4 two_waiting refl refl
