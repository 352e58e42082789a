-- ===== src/TaskAwaiter/Runs.antt =====
-- The life of a task's awaiter (corral/detail/TaskAwaiter.h).
use corral.Base.{
  ℕ, ◌≡◌, ◌==◌, ◌≤◌, ◌<◌, refl, sym, ◌∙◌, ap, ◌⊎◌, Bool, true, false, not, ◌&&◌, ◌||◌, leb,
  Bool-cases, inl, inr, List, [], ◌∷◌, Option, none, some, arith,
}
use corral.Checker.{
  State, initial, not_ready, initial_cxl_pend, cancel_pending, ready_immediately, running,
  cancelling, ready_after_cancel, ready, cancelled, done, Checker, fresh, is_final, is_ready,
}
use corral.TaskAwaiter.{
  Result, incomplete, was_cancelled, a_value, an_exception, is_completed, is_cancelled, Taken,
  returns, throws, value, TaskAwaiter, holding_value, construct, await_resume, Event, happen,
  and_then, run,
}
use corral.TaskValue.{Cells, has_promise, take_value}
use corral.TaskAwaiter.Inv.{allowed, sets_null, agree, agree_of, fits, step_lem, null_lem}

-- Whether each event is allowed where it comes.
abbrev allowed_then : Option (TaskAwaiter × Checker) → (TaskAwaiter → Checker → Bool) → Bool
allowed_then none f = true
allowed_then (some (t, k)) f = f t k

unfoldable pub all_allowed : List Event → TaskAwaiter → Checker → Bool
unfolding happen
all_allowed [] t k = true
all_allowed (e ∷ es) t k = allowed e t k && allowed_then (happen e t k) (all_allowed es)

-- Whether the executor is set at some point while the task has no promise.
unfoldable pub follows_null : List Event → TaskAwaiter → Checker → Bool
unfolding happen
follows_null [] t k = false
follows_null (e ∷ es) t k = sets_null e t || allowed_then (happen e t k) (follows_null es)

-- A run that follows a null promise comes to nothing, and any other one agrees.
Outcome : Bool → Option (TaskAwaiter × Checker) → Type 0
Outcome followed o = ((followed ≡ true) × (o ≡ none)) ⊎ (agree_of o ≡ true)

go_on_Outcome :
    (o : Option (TaskAwaiter × Checker)) (f n : TaskAwaiter → Checker → Bool)
    (g : TaskAwaiter → Checker → Option (TaskAwaiter × Checker))
    → agree_of o ≡ true
    → allowed_then o f ≡ true
    → ((t : TaskAwaiter) (k : Checker) → agree t k ≡ true → f t k ≡ true → Outcome (n t k) (g t k))
    → Outcome (allowed_then o n) (and_then o g)
go_on_Outcome none f n g a b h = absurd (ground (arith, a))
go_on_Outcome (some (t, k)) f n g a b h = h t k a b

run-Outcome :
    (es : List Event) (t : TaskAwaiter) (k : Checker)
    → agree t k ≡ true
    → all_allowed es t k ≡ true
    → Outcome (follows_null es t k) (run es t k)
unfolding run all_allowed follows_null Outcome
run-Outcome [] t k f a = inr f
run-Outcome (e ∷ es) t k f a = elim (Bool-cases (sets_null e t)) [
  | inl n ↦ inl (ground (arith, n), rw (null_lem e t k n) refl)
  | inr n ↦ rw n (
      go_on_Outcome (happen e t k) (all_allowed es) (follows_null es) (run es)
        (step_lem e t k f (ground (arith, a)) n) (ground (arith, a)) (run-Outcome es))
]

-- What a parent may rely on.
pub record Sound (t : TaskAwaiter) (k : Checker) : Type 0 where
  pub resumed_once : t.resumed ≤ 1
  pub handle : t.resumed ≡ 1 → t.continuation ≡ k.real_handle
  pub has_result : t.promise ≡ false → is_completed t.result ≡ true
  pub takes : is_ready k.state ≡ true → (r : Taken) × (await_resume t ≡ some r)
  pub ended : is_final k.state ≡ true → t.started ≡ true → t.promise ≡ false
  pub asked : is_cancelled t.result ≡ true → 0 < t.asked

value_lem :
    (r : Result) → is_completed r ≡ true → is_cancelled r ≡ false → (v : Taken) × (value r ≡ some v)
value_lem (a_value v) c f = (returns v, refl)
value_lem (an_exception e) c f = (throws e, refl)
value_lem incomplete c f = absurd (ground (arith, c))
value_lem was_cancelled c f = absurd (ground (arith, f))

fits_of : State → TaskAwaiter → Bool
fits_of s t =
    leb t.resumed 1
    && (t.promise || is_completed t.result)
    && (not (is_ready s) || (is_completed t.result && not (is_cancelled t.result)))
    && (not (is_final s) || not t.started || not t.promise)

fits_lem : (s : State) (t : TaskAwaiter) → fits s t ≡ true → fits_of s t ≡ true
unfolding fits_of
fits_lem initial t f = ground (arith, f)
fits_lem not_ready t f = ground (arith, f)
fits_lem initial_cxl_pend t f = ground (arith, f)
fits_lem cancel_pending t f = ground (arith, f)
fits_lem ready_immediately t f = ground (arith, f)
fits_lem running t f = ground (arith, f)
fits_lem cancelling t f = ground (arith, f)
fits_lem ready_after_cancel t f = ground (arith, f)
fits_lem ready t f = ground (arith, f)
fits_lem cancelled t f = ground (arith, f)
fits_lem done t f = ground (arith, f)

pub agree-Sound : (t : TaskAwaiter) (k : Checker) → agree t k ≡ true → Sound t k
unfolding fits_of
agree-Sound t k f =
    let g = fits_lem k.state t (ground (arith, f)) in
    record {
      resumed_once = ground (arith, g);
      handle = λ h. ground (arith, f, h);
      has_result = λ h. ground (arith, g, h);
      takes = λ h. value_lem t.result (ground (arith, g, h)) (ground (arith, g, h));
      ended = λ h j. ground (arith, g, h, j);
      asked = λ h. ground (arith, f, h);
    }

agree_made : Option (TaskAwaiter × ℕ × Cells) → Bool
agree_made none = true
agree_made (some (t, left, cells)) = agree t fresh

agree_made-holding_value : (o : Option (ℕ × ℕ × Cells)) → agree_made (holding_value o) ≡ true
unfolding agree_made
agree_made-holding_value none = refl
agree_made-holding_value (some (v, l, cs)) = refl

agree_made-construct :
    (fits_inline : Bool) (bits : ℕ) (cells : Cells)
    → 0 < bits
    → agree_made (construct fits_inline bits cells) ≡ true
unfolding agree_made construct
agree_made-construct fits_inline bits cells z = elim (Bool-cases (has_promise bits)) [
  | inl h ↦ let used : (bits == 0) ≡ false = ground (arith, z) in rw (h, used) refl
  | inr h ↦ rw h (agree_made-holding_value (take_value fits_inline bits cells))
]

pub agree-construct :
    (fits_inline : Bool) (bits : ℕ) (cells : Cells) (t : TaskAwaiter) (left : ℕ) (now : Cells)
    → 0 < bits
    → construct fits_inline bits cells ≡ some (t, left, now)
    → agree t fresh ≡ true
unfolding agree_made
agree-construct fits_inline bits cells t left now z e =
    sym (ap agree_made e) ∙ agree_made-construct fits_inline bits cells z

agree_of-Sound :
    (o : Option (TaskAwaiter × Checker))
    → agree_of o ≡ true
    → (u : TaskAwaiter) × (l : Checker) × (o ≡ some (u, l)) × Sound u l
agree_of-Sound none f = absurd (ground (arith, f))
agree_of-Sound (some (u, l)) f = (u, l, refl, agree-Sound u l f)

-- An awaiter of a valid task, whether that holds a promise or a value, is driven by a parent that keeps to the
-- documented state machine, which may set the executor at any point before it suspends; the promise ends at
-- most once, after it was started, with a value, an exception or, only if it was asked to cancel, a
-- cancellation. Then, unless an executor is set while the task has no promise, where the null promise is
-- followed, no null promise is, no assertion of the awaiter and no check of its state fails, the parent's
-- handle is resumed at most once, and when the parent takes the result, it is there.
pub task_life_lem :
    (fits_inline : Bool) (bits : ℕ) (cells : Cells) (t : TaskAwaiter) (left : ℕ) (now : Cells)
    (es : List Event)
    → 0 < bits
    → construct fits_inline bits cells ≡ some (t, left, now)
    → all_allowed es t fresh ≡ true
    → ((follows_null es t fresh ≡ true) × (run es t fresh ≡ none))
      ⊎ ((u : TaskAwaiter) × (l : Checker) × (run es t fresh ≡ some (u, l)) × Sound u l)
unfolding Outcome
task_life_lem fits_inline bits cells t left now es z e a =
    elim (run-Outcome es t fresh (agree-construct fits_inline bits cells t left now z e) a) [
      | inl n ↦ inl n
      | inr f ↦ inr (agree_of-Sound (run es t fresh) f)
    ]
