-- ===== src/Sequence/Runs.antt =====
-- The life of a sequence of two awaitables (corral/detail/Sequence.h).
use corral.Base.{
  ◌+◌, ◌≡◌, refl, Bool, true, false, not, ◌&&◌, ◌||◌, ◌==◌, List, [], ◌∷◌, if◌then◌else◌, arith,
}
use corral.Promise.{OnCancel, OnSuspend, suspends, continues, throws}
use corral.Sequence.{
  is_first, is_second, Answers, Sequence, made_new, resume_parent, await_set_executor,
  kick_off_second, await_early_cancel, await_suspend, cancel_by, await_cancel, go_on, destroy,
}
use corral.Sequence.Inv.{
  one_if, Inv, at_first, kick_off-Inv, first_done-Inv, second_done-Inv, cancelling-Inv,
  abandoned-Inv, cancel_by-Inv, at_first-Inv, raised-Inv,
}

-- The first awaiter resumes its handle, the second one resumes the parent, or the parent is asked to
-- cancel.
pub data Call : Type 0 where
  first_done : Answers → Call
  second_done : Call
  cancels : OnCancel → Answers → Call

-- The parent waits.
abbrev pub waiting : Sequence → Bool
waiting s = s.resumed == 0 && not s.terminated && not s.raised && not s.abandoned

abbrev pub allowed : Call → Sequence → Bool
allowed (first_done a) s = waiting s && is_first s.stage
allowed second_done s = waiting s && is_second s.stage
allowed (cancels o a) s = waiting s

abbrev pub told : Sequence × Bool → Sequence
told (s, done) = record s { abandoned = done }

unfoldable pub step : Call → Sequence → Sequence
unfolding kick_off_second cancel_by
step (first_done a) s = kick_off_second a s
step second_done s = resume_parent s
step (cancels o a) s = told (await_cancel o a s)

unfoldable pub run : List Call → Sequence → Sequence
unfolding step
run [] s = s
run (c ∷ cs) s = run cs (step c s)

unfoldable pub all_allowed : List Call → Sequence → Bool
unfolding step
all_allowed [] s = true
all_allowed (c ∷ cs) s = allowed c s && all_allowed cs (step c s)

step-Inv : (c : Call) (s : Sequence) → allowed c s ≡ true → Inv s → Inv (step c s)
unfolding step
step-Inv (first_done a) s ok v = first_done-Inv a s v (ground (arith, ok)) (ground (arith, ok))
step-Inv second_done s ok v = second_done-Inv s v (ground (arith, ok)) (ground (arith, ok))
step-Inv (cancels o a) s ok v =
    let q = record s { cancelling = true } in
    let t = cancel_by s.stage o a q in
    abandoned-Inv t.1 t.0
      (cancel_by-Inv s.stage o a q (cancelling-Inv s v) refl (ground (arith, ok)))

run-Inv : (cs : List Call) (s : Sequence) → all_allowed cs s ≡ true → Inv s → Inv (run cs s)
unfolding run all_allowed
run-Inv [] s ok v = v
run-Inv (c ∷ cs) s ok v =
    run-Inv cs (step c s) (ground (arith, ok)) (step-Inv c s (ground (arith, ok)) v)

-- A sequence that is awaited, by a task of which a cancellation may be requested already.
abbrev pub begin : Bool → Bool → OnSuspend → Answers → Sequence
begin asked ready o a =
    await_suspend ready o a
      (await_set_executor (if asked then await_early_cancel made_new else made_new))

await_suspend-Inv :
    (ready : Bool) (o : OnSuspend) (a : Answers) (s : Sequence)
    → Inv (await_suspend ready o a (at_first s))
unfolding await_suspend
await_suspend-Inv true o a s = kick_off-Inv a s
await_suspend-Inv false suspends a s = at_first-Inv s
await_suspend-Inv false continues a s = kick_off-Inv a s
await_suspend-Inv false throws a s = raised-Inv s

begin-Inv : (asked ready : Bool) (o : OnSuspend) (a : Answers) → Inv (begin asked ready o a)
begin-Inv true ready o a = await_suspend-Inv ready o a (await_early_cancel made_new)
begin-Inv false ready o a = await_suspend-Inv ready o a made_new

go_on_sound :
    (must : Bool) (s : Sequence) → Inv s → (s.resumed == 0 || not (go_on must s).broken) ≡ true
unfolding go_on
go_on_sound must s v = ground (arith, v.sound, v.has_result)

go_on-balance :
    (must : Bool) (s : Sequence)
    → Inv s
    → let t = go_on must s in t.built ≡ t.destroyed + one_if (is_second t.stage)
unfolding go_on
go_on-balance must s v = ground (arith, v.balance)

-- However a sequence is awaited, its awaitables and its function answer, and its parent cancels it,
-- the parent is resumed at most once, and until then a stage is under way; the result of the first is
-- taken at most once, a second stage is built at most once and is destroyed exactly once, by the
-- parent or at the latest by the destructor; and the parent that goes on after it was resumed finds
-- what it takes. The calls are those of awaitables that complete while they run and of a parent that
-- cancels while it waits.
pub life_lem :
    (asked ready : Bool) (o : OnSuspend) (a : Answers) (cs : List Call) (must : Bool)
    → all_allowed cs (begin asked ready o a) ≡ true
    → let s = run cs (begin asked ready o a) in
      Inv s
      × ((s.resumed == 0 || not (go_on must s).broken) ≡ true)
      × ((destroy s).built ≡ (destroy s).destroyed)
      × ((destroy (go_on must s)).built ≡ (destroy (go_on must s)).destroyed)
life_lem asked ready o a cs must ok =
    let s = run cs (begin asked ready o a) in
    let v = run-Inv cs (begin asked ready o a) ok (begin-Inv asked ready o a) in
    (v, go_on_sound must s v, ground (arith, v.balance), ground (arith, go_on-balance must s v))
