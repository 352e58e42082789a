-- ===== src/Mux/Tests.antt =====
-- Runs of the combiners of corral/detail/wait.h, and instances of their theorems.
use corral.Base.{ℕ, ◌<◌, ◌⊎◌, arith, ◌≡◌, refl, true, false, some, [], ◌∷◌, get_elem?, inl}
use corral.Mux.{
  running, cancelling, cancelled, succeeded, completes, waits, Awaiter, Mux, fresh, suspend,
  complete, await_suspend, invoke, set, size, cancelled_at, await_cancel,
}
use corral.Mux.Children.{done}
use corral.Mux.Resumption.{Inv, Done, complete-Done}
use corral.Mux.Early.{CountedAgain, suspend_from-counts_again}
use corral.Mux.Outside.{await_cancel-Inv}

-- An awaitable that suspends, and that a cancellation ends at once.
abbrev abortable : Awaiter
abortable = record {
  await_ready = false;
  skippable = false;
  await_early_cancel = false;
  await_cancel = completes;
  await_must_resume = false;
  suspends = true;
  fails = false;
}

-- One that goes on after a cancellation, and yields a value in spite of it.
abbrev stubborn : Awaiter
stubborn = record abortable { await_cancel = waits; await_must_resume = true }

abbrev at_once : Awaiter
at_once = record abortable { await_ready = true }

abbrev skipped : Awaiter
skipped = record abortable { await_early_cancel = true }

-- Three awaitables that run, of an `anyOf`.
abbrev three_running : Mux
three_running = record {
  min_ready = 1;
  count = 0;
  error = false;
  resumed = 0;
  broken = false;
  children =
      record { state = running; awaiter = abortable }
      ∷ record { state = running; awaiter = abortable }
      ∷ record { state = running; awaiter = stubborn }
      ∷ [];
}

suspends_three : (await_suspend (fresh 1 (abortable ∷ abortable ∷ stubborn ∷ []))).1 ≡ three_running
unfolding suspend set
suspends_three = refl

-- The first to complete cancels the second at once; the third makes the parent wait.
first_completes :
    (complete 0 three_running).children
    ≡ record { state = succeeded; awaiter = abortable }
      ∷ record { state = cancelled; awaiter = abortable }
      ∷ record { state = cancelling; awaiter = stubborn }
      ∷ []
unfolding complete invoke set
first_completes = refl

third_completes : (complete 2 (complete 0 three_running)).resumed ≡ 1
unfolding complete invoke set
third_completes = refl

three_running-Inv : Inv three_running
unfolding done
three_running-Inv = record { counted = refl; resumption = refl; sound = refl }

complete-Done_example : Done three_running (complete 0 three_running)
complete-Done_example = complete-Done 0 three_running three_running-Inv refl (inl refl)

fresh_one-Inv : Inv (fresh 1 (at_once ∷ []))
unfolding done
fresh_one-Inv = record { counted = refl; resumption = refl; sound = refl }

-- `anyOf` of one that is ready, one that an early cancellation ends and one that it does not: the first
-- is started, which ends the second and leaves the third to be cancelled.
abbrev first_started : Mux
first_started = suspend 0 1 (fresh 1 (at_once ∷ skipped ∷ abortable ∷ []))

first_started-Inv : Inv first_started
unfolding done suspend invoke set
first_started-Inv = record { counted = refl; resumption = refl; sound = refl }

suspend_from-counts_again_example : CountedAgain first_started (suspend 1 1 first_started)
unfolding suspend invoke set
suspend_from-counts_again_example =
    suspend_from-counts_again 1 skipped first_started first_started-Inv refl refl

-- So the parent is resumed once the second is started, and the third is started after that.
parent_resumed_early :
    let m = (await_suspend (fresh 1 (at_once ∷ skipped ∷ abortable ∷ []))).1 in
    ((suspend 1 1 first_started).resumed ≡ 1)
    × (m.resumed ≡ 1)
    × (get_elem? m.children 2 ≡ some (record { state = cancelling; awaiter = abortable }))
unfolding suspend invoke set
parent_resumed_early = (refl, refl, refl)

await_cancel-Inv_example :
    let (answer, n) = await_cancel three_running in
    ((answer ≡ true)
      × (n.resumed ≡ 0)
      × ((j : ℕ) → j < size three_running → cancelled_at j n.children ≡ true))
    ⊎ ((answer ≡ false) × Inv n)
unfolding done
await_cancel-Inv_example = await_cancel-Inv three_running three_running-Inv (omega arith)

-- If all can be cancelled at once then they are, and the parent is not resumed.
cancels_both : (await_cancel (await_suspend (fresh 2 (abortable ∷ abortable ∷ []))).1).0 ≡ true
unfolding await_cancel suspend invoke set cancelled_at
cancels_both = refl
