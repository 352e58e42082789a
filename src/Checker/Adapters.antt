-- ===== src/Checker/Adapters.antt =====
-- The adapter that makes an awaiter not cancellable (corral/detail/utility.h) passes on no call that the
-- awaiter's checker rejects.
use corral.Base.{
  ℕ, ◌≡◌, refl, ap, ◌∙◌, Bool, true, false, not, ◌&&◌, List, [], ◌∷◌, ◌++◌, Option, none, some,
  arith,
}
use corral.Checker.{
  State, initial, not_ready, initial_cxl_pend, cancel_pending, ready_immediately, running,
  cancelling, ready_after_cancel, ready, cancelled, done, Checker, fresh, Call, asks_ready,
  cancels_early, asks_must_resume, cancel_returns, suspends, cancels, sets_executor, suspend_throws,
  resumes, takes, is_final, check, and_then, run, noncancellable, answers_noncancellable,
}

-- Whether an awaiter has been suspended on, after one call more.
abbrev pub suspended_after : Bool → Call → Bool
suspended_after f (suspends h) = true
suspended_after f c = f

-- No `await_ready` once it has been suspended on.
abbrev pub asks_in_time : Bool → Call → Bool
asks_in_time f (asks_ready r) = not f
asks_in_time f c = true

abbrev pub all_calls : (Bool → Call → Bool) → Bool → List Call → Bool
all_calls p f [] = true
all_calls p f (c ∷ cs) = p f c && all_calls p (suspended_after f c) cs

abbrev pub forwarded : (Call → List Call) → List Call → List Call
forwarded g [] = []
forwarded g (c ∷ cs) = g c ++ forwarded g cs

-- The state of the awaiter, by that of the adapter and by whether it has been suspended on.
abbrev pub inner_of : Bool → State → State
inner_of f initial_cxl_pend = initial
inner_of f cancel_pending = not_ready
inner_of f cancelling = running
inner_of true ready_after_cancel = ready
inner_of false ready_after_cancel = ready_immediately
inner_of true ready = ready
inner_of false ready = ready_immediately
inner_of f s = s

abbrev pub inner : Bool → Checker → Checker
inner f k = record k { state = inner_of f k.state }

-- One that runs has been suspended on, one that has not started has not, and none is cancelled.
abbrev pub fits : Bool → State → Bool
fits f running = f
fits f cancelling = f
fits f cancelled = false
fits f ready_after_cancel = true
fits f ready = true
fits f done = true
fits f s = not f

abbrev pub allowed : Bool → Call → Bool
allowed f c = answers_noncancellable c && asks_in_time f c

step_by_state :
    (s : State) (c : Call) (f b : Bool) (h : ℕ) (l : Checker)
    → allowed f c ≡ true
    → fits f s ≡ true
    → check c (record { state = s; has_executor = b; real_handle = h }) ≡ some l
    → (run (noncancellable c) (inner f (record { state = s; has_executor = b; real_handle = h }))
        ≡ some (inner (suspended_after f c) l))
      × (fits (suspended_after f c) l.state ≡ true)
unfolding run noncancellable check
step_by_state s (asks_ready r) f b h l ok fit e =
    (ground (arith, ok, fit, e), ground (arith, ok, fit, e))
step_by_state s (cancels_early r) f b h l ok fit e =
    (ground (arith, ok, fit, e), ground (arith, ok, fit, e))
step_by_state s (asks_must_resume r) f b h l ok fit e =
    (ground (arith, ok, fit, e), ground (arith, ok, fit, e))
step_by_state s (cancel_returns r) f b h l ok fit e =
    (ground (arith, ok, fit, e), ground (arith, ok, fit, e))
step_by_state s (suspends g) f b h l ok fit e =
    (ground (arith, ok, fit, e), ground (arith, ok, fit, e))
step_by_state s (cancels g) f b h l ok fit e =
    (ground (arith, ok, fit, e), ground (arith, ok, fit, e))
step_by_state s sets_executor f b h l ok fit e =
    (ground (arith, ok, fit, e), ground (arith, ok, fit, e))
step_by_state s suspend_throws f b h l ok fit e =
    (ground (arith, ok, fit, e), ground (arith, ok, fit, e))
step_by_state s resumes f b h l ok fit e = (ground (arith, ok, fit, e), ground (arith, ok, fit, e))
step_by_state s takes f b h l ok fit e = (ground (arith, ok, fit, e), ground (arith, ok, fit, e))

step-inner :
    (c : Call) (f : Bool) (k l : Checker)
    → allowed f c ≡ true
    → fits f k.state ≡ true
    → check c k ≡ some l
    → (run (noncancellable c) (inner f k) ≡ some (inner (suspended_after f c) l))
      × (fits (suspended_after f c) l.state ≡ true)
step-inner c f k l = step_by_state k.state c f k.has_executor k.real_handle l

and_then_assoc :
    (o : Option Checker) (f g h : Checker → Option Checker)
    → ((l : Checker) → f l ≡ and_then (g l) h)
    → and_then o f ≡ and_then (and_then o g) h
and_then_assoc none f g h e = refl
and_then_assoc (some l) f g h e = e l

run-append : (xs ys : List Call) (k : Checker) → run (xs ++ ys) k ≡ and_then (run xs k) (run ys)
unfolding run
run-append [] ys k = refl
run-append (x ∷ xs) ys k =
    and_then_assoc (check x k) (run (xs ++ ys)) (run xs) (run ys) (run-append xs ys)

and_then-some :
    (o : Option Checker) (f : Checker → Option Checker) {l : Checker}
    → and_then o f ≡ some l
    → (m : Checker) × (o ≡ some m) × (f m ≡ some l)
and_then-some none f e = absurd (ground (arith, e))
and_then-some (some m) f e = (m, refl, e)

run-inner :
    (cs : List Call) (f : Bool) (k l : Checker)
    → all_calls allowed f cs ≡ true
    → fits f k.state ≡ true
    → run cs k ≡ some l
    → (g : Bool) × (run (forwarded noncancellable cs) (inner f k) ≡ some (inner g l))
      × (fits g l.state ≡ true)
unfolding run
run-inner [] f k l ok fit e = (f, cc, ground (arith, fit, e))
run-inner (c ∷ cs) f k l ok fit e =
    let (m, here, after) = and_then-some (check c k) (run cs) e in
    let (went, fits_still) = step-inner c f k m (ground (arith, ok)) fit here in
    let (g, rest, last) =
      run-inner cs (suspended_after f c) m l (ground (arith, ok)) fits_still after in
    (
      g,
      run-append (noncancellable c) (forwarded noncancellable cs) (inner f k)
          ∙ ap (λ o. and_then o (run (forwarded noncancellable cs))) went
          ∙ rest,
      last,
    )

final_inner :
    (g : Bool) (s : State) → fits g s ≡ true → is_final s ≡ true → is_final (inner_of g s) ≡ true
final_inner g initial e h = refl
final_inner g s e h = ground (arith, e, h)

-- A parent that cancels an adapter by `noncancellable` as it likes, and keeps to the state machine, keeps
-- the awaiter within the state machine too: the awaiter's checker accepts what is passed on, and if the
-- adapter may be destroyed, so may the awaiter. The parent does not ask await_ready once it has suspended.
pub run-noncancellable :
    (cs : List Call) (l : Checker)
    → all_calls allowed false cs ≡ true
    → run cs fresh ≡ some l
    → (j : Checker) × (run (forwarded noncancellable cs) fresh ≡ some j)
      × (is_final l.state ≡ true → is_final j.state ≡ true)
run-noncancellable cs l ok e =
    let (g, went, fit) = run-inner cs false fresh l ok refl e in
    (inner g l, went, λ h. final_inner g l.state fit h)
