-- ===== src/Sequence/Tests.antt =====
-- Runs of a sequence (corral/detail/Sequence.h), and an instance of the theorem about it.
use corral.Base.{◌≡◌, ◌==◌, ◌||◌, refl, true, false, not, List, [], ◌∷◌}
use corral.Promise.{waits, suspends}
use corral.Sequence.{Answers, Sequence, await_suspend, go_on, destroy}
use corral.Sequence.Inv.{Inv}
use corral.Sequence.Runs.{Call, first_done, second_done, cancels, run, all_allowed, begin, life_lem}

abbrev suspended_second : Answers
suspended_second = record {
  first_must_resume = true;
  made = true;
  cancelled_meanwhile = false;
  second_early_cancel = false;
  second_ready = false;
  second_suspend = suspends;
}

-- The parent cancels during the first stage, which has a result all the same; the second goes on.
abbrev calls : List Call
calls = cancels waits suspended_second ∷ first_done suspended_second ∷ second_done ∷ []

abbrev sequence : Sequence
sequence = begin false false suspends suspended_second

resumed_once : (run calls sequence).resumed ≡ 1
unfolding run await_suspend
resumed_once = refl

life_lem_example :
    let s = run calls sequence in
    Inv s
    × ((s.resumed == 0 || not (go_on false s).broken) ≡ true)
    × ((destroy s).built ≡ (destroy s).destroyed)
    × ((destroy (go_on false s)).built ≡ (destroy (go_on false s)).destroyed)
unfolding all_allowed await_suspend
life_lem_example = life_lem false false suspends suspended_second calls false refl
