-- ===== src/ThreadPool/Token.antt =====
-- The cancellation token of a task in a thread pool (corral/ThreadPool.h).
use corral.Base.{
  ◌≡◌, refl, Bool, true, false, not, ◌&&◌, ◌||◌, List, [], ◌∷◌, ◌++◌, ◌∙◌, if◌then◌else◌, arith,
}

pub data CancelState : Type 0 where
  none requested confirmed : CancelState

-- `CancelToken::operator bool`: the state and the answer.
unfoldable pub test : CancelState → CancelState × Bool
test requested = (confirmed, true)
test confirmed = (confirmed, true)
test none = (none, false)

-- `CancelToken::peek`
abbrev pub peek : CancelState → Bool
peek none = false
peek _ = true

-- `CancelToken::consume`
unfoldable pub consume : CancelState → CancelState
consume requested = confirmed
consume s = s

-- `TaskImpl::await_cancel` stores, whatever the state was.
abbrev pub await_cancel : CancelState → CancelState
await_cancel s = requested

-- `TaskImpl::await_must_resume`
abbrev pub await_must_resume : CancelState → Bool
await_must_resume confirmed = false
await_must_resume _ = true

-- The task asks, looks or consumes, and the main thread cancels.
pub data Access : Type 0 where
  tests peeks consumes cancels : Access

unfoldable pub access : Access → CancelState → CancelState
unfolding test consume
access tests s = (test s).0
access peeks s = s
access consumes s = consume s
access cancels s = await_cancel s

-- The state after a sequence of accesses.
unfoldable pub accesses : List Access → CancelState → CancelState
unfolding access
accesses [] s = s
accesses (a ∷ bs) s = accesses bs (access a s)

-- An access by which a task acts on a cancellation.
abbrev pub noticed : Access → Bool
noticed tests = true
noticed consumes = true
noticed _ = false

-- Something among the accesses takes note of a cancellation.
unfoldable pub takes_note : List Access → Bool
takes_note [] = false
takes_note (a ∷ bs) = noticed a || takes_note bs

unfoldable pub is_cancel : Access → Bool
is_cancel cancels = true
is_cancel _ = false

-- None of the accesses is a cancellation.
unfoldable pub uncancelled : List Access → Bool
unfolding is_cancel
uncancelled [] = true
uncancelled (a ∷ bs) = not (is_cancel a) && uncancelled bs

stays_confirmed : (bs : List Access) → uncancelled bs ≡ true → accesses bs confirmed ≡ confirmed
unfolding accesses uncancelled
stays_confirmed [] h = refl
stays_confirmed (cancels ∷ bs) h = absurd (ground (arith, h))
stays_confirmed (tests ∷ bs) h = stays_confirmed bs h
stays_confirmed (peeks ∷ bs) h = stays_confirmed bs h
stays_confirmed (consumes ∷ bs) h = stays_confirmed bs h

stays_none : (bs : List Access) → uncancelled bs ≡ true → accesses bs none ≡ none
unfolding accesses uncancelled
stays_none [] h = refl
stays_none (cancels ∷ bs) h = absurd (ground (arith, h))
stays_none (tests ∷ bs) h = stays_none bs h
stays_none (peeks ∷ bs) h = stays_none bs h
stays_none (consumes ∷ bs) h = stays_none bs h

accesses-append :
    (bs cs : List Access) (s : CancelState) → accesses (bs ++ cs) s ≡ accesses cs (accesses bs s)
unfolding accesses
accesses-append [] cs s = refl
accesses-append (b ∷ bs) cs s = accesses-append bs cs (access b s)

after_cancel :
    (bs : List Access)
    → uncancelled bs ≡ true
    → accesses bs requested ≡ (if takes_note bs then confirmed else requested)
unfolding accesses uncancelled takes_note
after_cancel [] h = refl
after_cancel (cancels ∷ bs) h = absurd (ground (arith, h))
after_cancel (tests ∷ bs) h = stays_confirmed bs h
after_cancel (peeks ∷ bs) h = after_cancel bs h
after_cancel (consumes ∷ bs) h = stays_confirmed bs h

-- However the accesses of a task to its token and the one cancellation interleave, the task's result
-- is dropped exactly if the task has tested or consumed the token after the cancellation; a test is
-- false before the cancellation and true after it, and then the result is dropped.
pub token_lem :
    (bs cs : List Access)
    → uncancelled bs ≡ true
    → uncancelled cs ≡ true
    → let s = accesses (bs ++ cancels ∷ cs) none in
      (await_must_resume s ≡ not (takes_note cs))
      × ((test (accesses bs none)).1 ≡ false)
      × ((test s).1 ≡ true)
      × (peek s ≡ true)
      × (await_must_resume (test s).0 ≡ false)
unfolding test accesses
token_lem bs cs h k =
    let e : accesses (bs ++ cancels ∷ cs) none ≡ (if takes_note cs then confirmed else requested) =
      accesses-append bs (cancels ∷ cs) none ∙ after_cancel cs k in
    rw (e, stays_none bs h) (by_note (takes_note cs))
  where
    by_note :
        (b : Bool)
        → let s = if b then confirmed else requested in
          (await_must_resume s ≡ not b)
          × ◌≡◌ {A = Bool} false false
          × ((test s).1 ≡ true)
          × (peek s ≡ true)
          × (await_must_resume (test s).0 ≡ false)
    by_note true = (refl, refl, refl, refl, refl)
    by_note false = (refl, refl, refl, refl, refl)
