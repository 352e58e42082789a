-- ===== src/Semaphore/Runs.antt =====
-- Where the count of a semaphore (corral/Semaphore.h) is, over any sequence of calls: in `value`, with
-- an awaiter that borrowed it, or out with a task that acquired it.
use corral.Base.{
  ℕ, ◌+◌, ◌-◌, ◌≤◌, ◌≡◌, refl, ◌⊎◌, inl, inr, Bool, List, [], ◌∷◌, length, if◌then◌else◌,
  Bool-cases, some, ◌==◌, has, remove, length-remove, remove-absent, remove-nil, remove-head, ◌++◌,
  arith,
}
use corral.ParkingLot.{empty, unpark_one, unpark}
use corral.Semaphore.{
  Semaphore, make, try_acquire, release, construct, await_suspend, await_resume, await_cancel,
  destroy,
}

-- A semaphore, how many counts its users have out, and how many were added: a count that is released
-- while none is out is a new one. A waiter that `release` wakes has its count from then on.
pub record Use : Type 0 where
  pub sem : Semaphore
  pub open sem use *
  pub out : ℕ
  pub added : ℕ

abbrev pub started : ℕ → Use
started initial = record { sem = make initial; out = 0; added = 0 }

abbrev pub tried : Use → Use
tried u =
    let (taken, s) = try_acquire u.sem in
    record u { sem = s; out = if taken then u.out + 1 else u.out }

-- Without a waiter a count comes back, with one it changes hands; if none was out, it is new.
abbrev pub released : Use → Use
released u =
    let new : ℕ = if u.out == 0 then 1 else 0 in
    record {
      sem = release u.sem;
      out = if empty u.lot then u.out - 1 else u.out + new;
      added = u.added + new;
    }

-- A count that the awaiter borrowed goes out; one that it got when it was woken is out already.
abbrev pub resumed : ℕ → Use → Use
resumed i u = record u {
  sem = await_resume i u.sem;
  out = if has i u.borrowed then u.out + 1 else u.out;
}

-- A count that it borrowed goes back, or to a waiter.
abbrev pub destroyed : ℕ → Use → Use
destroyed i u = record u {
  sem = destroy i u.sem;
  out = if has i u.borrowed then if empty u.lot then u.out else u.out + 1 else u.out;
}

abbrev pub suspended : Use → Bool × Semaphore → Use
suspended u (waits, s) = record u { sem = s; out = if waits then u.out else u.out + 1 }

pub data Step (u : Use) : Use → Type 0 where
  tries : Step u (tried u)
  constructs : (i : ℕ) → Step u (record u { sem = construct i u.sem })
  suspends :
      (i : ℕ) {r : Bool × Semaphore} → await_suspend i u.sem ≡ some r → Step u (suspended u r)
  resumes : (i : ℕ) → Step u (resumed i u)
  cancels : (i : ℕ) → Step u (record u { sem = await_cancel i u.sem })
  destroys : (i : ℕ) → Step u (destroyed i u)
  releases : Step u (released u)

pub data Reach (initial : ℕ) : Use → Type 0 where
  start : Reach initial (started initial)
  later : {u v : Use} → Reach initial u → Step u v → Reach initial v

pub record Inv (total : ℕ) (u : Use) : Type 0 where
  pub conserved : u.value + length u.borrowed + u.out ≡ total + u.added
  pub settled : (u.parked ≡ []) ⊎ (u.value ≡ 0)

tried-Inv : {n : ℕ} {u : Use} → Inv n u → Inv n (tried u)
unfolding try_acquire
tried-Inv v = ground (arith, v.conserved, v.settled)

construct-Inv : {n : ℕ} {u : Use} (i : ℕ) → Inv n u → Inv n (record u { sem = construct i u.sem })
unfolding construct
construct-Inv i v = ground (arith, v.conserved, v.settled)

suspended-Inv :
    {n : ℕ} {u : Use} (i : ℕ) {r : Bool × Semaphore}
    → await_suspend i u.sem ≡ some r
    → Inv n u
    → Inv n (suspended u r)
unfolding await_suspend
suspended-Inv i e v = ground (arith, v.conserved, v.settled)

resumed-Inv : {n : ℕ} {u : Use} (i : ℕ) → Inv n u → Inv n (resumed i u)
unfolding await_resume
resumed-Inv {u = u} i v =
    ground (arith, v.conserved, v.settled, length-remove i u.borrowed, remove-absent i u.borrowed)

cancel-Inv : {n : ℕ} {u : Use} (i : ℕ) → Inv n u → Inv n (record u { sem = await_cancel i u.sem })
unfolding await_cancel
cancel-Inv i v = record {
  conserved = v.conserved;
  settled = ground (arith, v.settled, remove-nil i);
}

released-Inv : {n : ℕ} {u : Use} → Inv n u → Inv n (released u)
unfolding release
released-Inv v = ground (arith, v.conserved, v.settled)

destroyed-Inv : {n : ℕ} {u : Use} (i : ℕ) → Inv n u → Inv n (destroyed i u)
unfolding destroy
destroyed-Inv {n} {u} i v = elim (Bool-cases (has i u.borrowed)) [
  | inl held ↦
      let r : Inv n
          (record u { sem = given_back; out = if empty u.lot then u.out else u.out + 1 }) =
        ground (arith, v.conserved, v.settled, length-remove i u.borrowed held) in
      rw held (cancel-Inv i r)
  | inr free ↦ rw free (cancel-Inv i v)
]
  where
    given_back : Semaphore
    given_back = release (record u.sem { borrowed = remove i u.borrowed })

pub Step-Inv : {n : ℕ} {u w : Use} → Step u w → Inv n u → Inv n w
Step-Inv tries v = tried-Inv v
Step-Inv (constructs i) v = construct-Inv i v
Step-Inv (suspends i e) v = suspended-Inv i e v
Step-Inv (resumes i) v = resumed-Inv i v
Step-Inv (cancels i) v = cancel-Inv i v
Step-Inv (destroys i) v = destroyed-Inv i v
Step-Inv releases v = released-Inv v

-- After any calls, the counts in `value`, those borrowed by awaiters and those out add up to the initial
-- count and those that were added, by releases while none was out; and nobody is parked while `value` is
-- not 0.
pub Reach-Inv : {n : ℕ} {u : Use} → Reach n u → Inv n u
Reach-Inv start = record { conserved = omega arith; settled = inl refl }
Reach-Inv (later r st) = Step-Inv st (Reach-Inv r)

-- With an initial count of 1 to which nothing is added a semaphore is a lock: at most one count is out or
-- borrowed.
exclusive : {u : Use} → Reach 1 u → u.added ≡ 0 → u.out + length u.borrowed ≤ 1
exclusive r h = omega (arith, (Reach-Inv r).conserved, h)

-- Releasing passes the count to the longest waiter; its task resumes, and the others keep their
-- places.
pub release-serves_oldest :
    (s : Semaphore) (i : ℕ) (is : List ℕ)
    → s.parked ≡ i ∷ is
    → release s ≡ record s { lot = record { parked = is; resumed = s.resumed ++ i ∷ [] } }
unfolding release empty unpark_one unpark
release-serves_oldest s i is e = ground (arith, remove-head i is)
