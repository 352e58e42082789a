-- ===== src/Mux/Immediate/Tests.antt =====
-- Combiners that are ready without a suspension (corral/detail/wait.h), on small inputs.
use corral.Base.{ℕ, ◌≡◌, ◌<◌, refl, true, false, List, [], ◌∷◌, some, length, arith}
use corral.Mux.{Awaiter, resumes, invoke, set, cancel_all, fresh}
use corral.Mux.Children.{is_done}
use corral.Mux.Immediate.{
  await_ready, resume_without_suspend, result, as_optional, results, an_error, Outcome,
  await_resume, await_early_cancel,
}
use corral.Mux.Immediate.Evolve.{has_result}
use corral.Mux.Immediate.Progress.{Holds}
use corral.Mux.Immediate.Results.{resume_lem}

abbrev at_once : Awaiter
at_once = record {
  await_ready = true;
  skippable = false;
  await_early_cancel = false;
  await_cancel = resumes;
  await_must_resume = false;
  suspends = true;
  fails = false;
}

abbrev skippable_one : Awaiter
skippable_one = record at_once { await_ready = false; skippable = true; await_early_cancel = true }

abbrev any_three : List Awaiter
any_three = skippable_one ∷ at_once ∷ record at_once { await_must_resume = true } ∷ []

-- anyOf takes the first that is ready; of the others one is skipped, and one has a value all the same.
any_of :
    await_resume as_optional (resume_without_suspend (fresh 1 any_three))
    ≡ some (results (false ∷ true ∷ true ∷ []))
unfolding await_resume resume_without_suspend invoke set
any_of = refl

all_of_fails :
    await_resume result
      (resume_without_suspend (fresh 2 (at_once ∷ record at_once { fails = true } ∷ [])))
    ≡ some an_error
unfolding await_resume resume_without_suspend invoke set
all_of_fails = refl

resume_lem_example :
    let n = resume_without_suspend (fresh 1 any_three) in
    (n.broken ≡ false)
    × ((j : ℕ) → j < 3 → Holds is_done j n.children)
    × ((r : ℕ) × Holds has_result r n.children)
    × ((o : Outcome) × (await_resume as_optional n ≡ some o))
    × (1 ≡ length any_three → (o : Outcome) × (await_resume result n ≡ some o))
unfolding await_ready
resume_lem_example = resume_lem 1 any_three refl (omega arith) (omega arith) refl

-- All that is skipped is cancelled before it starts; one that goes on is not.
skipped_early : (await_early_cancel (fresh 1 (skippable_one ∷ skippable_one ∷ []))).0 ≡ true
unfolding cancel_all set
skipped_early = refl

goes_on : (await_early_cancel (fresh 1 any_three)).0 ≡ false
unfolding cancel_all set
goes_on = refl
