-- ===== src/With/Inv.antt =====
-- What holds of a guarded body between two calls (corral/detail/With.h).
use corral.Base.{◌+◌, ◌≡◌, Bool, true, not, ◌&&◌, ◌||◌, ◌==◌, leb, if◌then◌else◌}
use corral.With.{With, is_second, is_running, first, second}

-- The second stages and their results, of which there is one at most.
abbrev pub counts : With → Bool
counts m =
    (m.built == (if is_second m.stage then m.destroyed + 1 else m.destroyed))
    && leb m.built 1
    && (m.taken == (if m.has_second_result then 1 else 0))
    && (not m.has_second_result
        || (m.second_flags.done && not m.second_flags.must_not_resume && not (is_second m.stage)))

-- A second stage that runs is there, and its own flags say how it was reached.
abbrev pub shape : With → Bool
shape m =
    not m.broken
    && (not (is_running second m) || is_second m.stage)
    && (not m.second_flags.started || (m.built == 1))

-- Before the suspension; both stages run, or one, and somebody will resume the parent; the parent was resumed.
abbrev pub idle : With → Bool
idle m =
    not m.first_flags.started
    && not m.first_flags.done
    && not m.second_flags.started
    && (m.resumed == 0)

abbrev pub waiting : With → Bool
waiting m =
    (m.resumed == 0)
    && (is_running first m || is_running second m)
    && (not m.second_flags.done || is_running first m)
    && (not (is_second m.stage) || m.second_flags.started || m.second_flags.done)
    && (not m.first_flags.done || (is_running second m && m.second_flags.cancelling))
    && (not m.second_flags.done || m.first_flags.cancelling)
    && (not m.second_flags.cancelling || m.second_flags.started || m.second_flags.done)
    && (m.first_flags.started || m.first_flags.done)

abbrev pub finished : With → Bool
finished m = (m.resumed == 1) && m.first_flags.done && not (is_running second m)

abbrev pub lively : With → Bool
lively m = waiting m || finished m

pub record Kept (m : With) : Type 0 where
  pub counted : counts m ≡ true
  pub shaped : shape m ≡ true
  pub lives : lively m ≡ true

pub record Waits (m : With) : Type 0 where
  pub counted : counts m ≡ true
  pub shaped : shape m ≡ true
  pub waits_ : waiting m ≡ true
