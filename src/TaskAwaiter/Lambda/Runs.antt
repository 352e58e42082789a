-- ===== src/TaskAwaiter/Lambda/Runs.antt =====
-- The life of an awaited lambda (corral/detail/utility.h).
use corral.Base.{
  ℕ, ◌≡◌, ◌<◌, refl, sym, ◌∙◌, ap, Bool, true, ◌&&◌, Option, none, some, List, [], ◌∷◌, arith,
}
use corral.Checker.{
  State, initial, not_ready, initial_cxl_pend, cancel_pending, ready_immediately, running,
  cancelling, ready_after_cancel, ready, cancelled, done, Checker, fresh, is_final, is_ready,
}
use corral.TaskAwaiter.{construct, TaskAwaiter, Event}
use corral.TaskAwaiter.Inv.{fits}
use corral.TaskAwaiter.Runs.{Sound, agree-Sound, agree-construct}
use corral.TaskValue.{Cells}
use corral.TaskAwaiter.Lambda.{Lambda, happen, run, and_then}
use corral.TaskAwaiter.Lambda.Inv.{
  lambda_fits, lambda_agree, allowed, agree_of, task_fits, step_lem,
}

abbrev pub allowed_then : Option (Lambda × Checker) → (Lambda → Checker → Bool) → Bool
allowed_then none f = true
allowed_then (some (o, k)) f = f o k

-- Whether each event is allowed where it comes.
unfoldable pub all_allowed : TaskAwaiter → List Event → Lambda → Checker → Bool
unfolding happen
all_allowed callable [] o k = true
all_allowed callable (e ∷ es) o k =
    allowed e o k && allowed_then (happen callable e o k) (all_allowed callable es)

go_on_agree :
    (r : Option (Lambda × Checker)) (f : Lambda → Checker → Bool)
    (g : Lambda → Checker → Option (Lambda × Checker))
    → agree_of r ≡ true
    → allowed_then r f ≡ true
    → ((o : Lambda) (k : Checker)
        → lambda_agree o k ≡ true
        → f o k ≡ true
        → agree_of (g o k) ≡ true)
    → agree_of (and_then r g) ≡ true
go_on_agree none f g a b h = a
go_on_agree (some (o, k)) f g a b h = h o k a b

run-agree :
    (callable : TaskAwaiter) (untouched : task_fits callable ≡ true) (es : List Event) (o : Lambda)
    (k : Checker)
    → lambda_agree o k ≡ true
    → all_allowed callable es o k ≡ true
    → agree_of (run callable es o k) ≡ true
unfolding run all_allowed
run-agree callable untouched [] o k f a = f
run-agree callable untouched (e ∷ es) o k f a =
    go_on_agree (happen callable e o k) (all_allowed callable es) (run callable es)
      (step_lem callable untouched e o k f (ground (arith, a))) (ground (arith, a))
      (run-agree callable untouched es)

lambda_fits-fits :
    (s : State) (t : TaskAwaiter)
    → lambda_fits s (some t) ≡ true
    → (r : State) × (fits r t ≡ true)
      × (is_ready s ≡ is_ready r)
      × (is_final s ≡ true → is_final r ≡ true)
lambda_fits-fits not_ready t f = (initial, f, refl, λ h. refl)
lambda_fits-fits cancel_pending t f = (initial_cxl_pend, f, refl, λ h. absurd (ground (arith, h)))
lambda_fits-fits initial t f = (initial, f, refl, λ h. h)
lambda_fits-fits ready_immediately t f = absurd (ground (arith, f))
lambda_fits-fits initial_cxl_pend t f = (initial_cxl_pend, f, refl, λ h. h)
lambda_fits-fits running t f = (running, f, refl, λ h. h)
lambda_fits-fits cancelling t f = (cancelling, f, refl, λ h. h)
lambda_fits-fits ready_after_cancel t f = (ready_after_cancel, f, refl, λ h. h)
lambda_fits-fits ready t f = (ready, f, refl, λ h. h)
lambda_fits-fits cancelled t f = (cancelled, f, refl, λ h. h)
lambda_fits-fits done t f = (done, f, refl, λ h. h)

lambda_agree-Sound : (t : TaskAwaiter) (k : Checker) → lambda_agree (some t) k ≡ true → Sound t k
lambda_agree-Sound t k f =
    let (r, g, same, final_) = lambda_fits-fits k.state t (ground (arith, f)) in
    let v = agree-Sound t (record k { state = r }) (ground (arith, f, g)) in
    record {
      resumed_once = v.resumed_once;
      handle = v.handle;
      has_result = v.has_result;
      takes = λ h. v.takes (sym same ∙ h);
      ended = λ h. v.ended (final_ h);
      asked = v.asked;
    }

agree_of-Sound :
    (r : Option (Lambda × Checker))
    → agree_of r ≡ true
    → (o : Lambda) × (l : Checker) × (r ≡ some (o, l))
      × ((u : TaskAwaiter) → o ≡ some u → Sound u l)
agree_of-Sound none f = absurd (ground (arith, f))
agree_of-Sound (some (o, l)) f =
    (o, l, refl, λ u e. lambda_agree-Sound u l (ap (λ p. lambda_agree p l) (sym e) ∙ f))

-- A lambda that returns a valid task, whether that holds a promise or a value, is driven by a parent that keeps to
-- the documented state machine and may set the executor at any point before it suspends, and the promise ends
-- as one of a task does. Then the task's awaiter is made before it is used, no null promise is followed, no assertion and no check of the state fails, the parent's
-- handle is resumed by the task at most once, and when the parent takes the result, it is there.
pub lambda_lem :
    (fits_inline : Bool) (bits : ℕ) (cells : Cells) (t : TaskAwaiter) (left : ℕ) (now : Cells)
    (es : List Event)
    → 0 < bits
    → construct fits_inline bits cells ≡ some (t, left, now)
    → all_allowed t es none fresh ≡ true
    → (o : Lambda) × (l : Checker) × (run t es none fresh ≡ some (o, l))
      × ((u : TaskAwaiter) → o ≡ some u → Sound u l)
lambda_lem fits_inline bits cells t left now es z e a =
    agree_of-Sound (run t es none fresh)
      (run-agree t (agree-construct fits_inline bits cells t left now z e) es none fresh refl a)
