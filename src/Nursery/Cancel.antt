-- ===== src/Nursery/Cancel.antt =====
-- The cancellation of a nursery's tasks (corral/Nursery.h), some of which end at once.
use corral.Base.{
  ℕ, ◌≡◌, refl, subst, ◌∙◌, Bool, true, false, ◌&&◌, some, List, [], ◌∷◌, ◌++◌, if◌then◌else◌, ◌==◌,
  has, remove, has-append, has-append_right, has-remove_ne, remove-IsUnique, IsUnique, Bool-cases,
  ==_iff, inl, inr, arith,
}
use corral.Nursery.{Nursery, continuation, cancel_each}
use corral.Nursery.Inv.{Core, continuation-Core}

has-remove_other : (i j : ℕ) (xs : List ℕ) → (i == j) ≡ false → has j (remove i xs) ≡ has j xs
unfolding has remove
has-remove_other i j [] h = refl
has-remove_other i j (x ∷ xs) h = ground (arith, has-remove_other i j xs h)

pub has-remove_within : (i j : ℕ) (xs : List ℕ) → has j (remove i xs) ≡ true → has j xs ≡ true
has-remove_within i j xs h = elim (Bool-cases (has j xs)) [
  | inl e ↦ e
  | inr e ↦ absurd (ground (arith, has-remove_ne i j xs e, h))
]

-- Whether each of a list is in another.
unfoldable pub within : List ℕ → List ℕ → Bool
within [] xs = true
within (p ∷ ps) xs = has p xs && within ps xs

within-remove :
    (i : ℕ) (ps xs : List ℕ)
    → has i ps ≡ false
    → within ps xs ≡ true
    → within ps (remove i xs) ≡ true
unfolding within has
within-remove i [] xs a h = refl
within-remove i (p ∷ ps) xs a h =
    ground (arith, a, h, has-remove_other i p xs, within-remove i ps xs)

pub continuation-tasks : (p : ℕ) (n : Nursery) → (continuation (some p) n).tasks ≡ remove p n.tasks
unfolding continuation
continuation-tasks p n = ground arith

pub continuation-told : (p : ℕ) (n : Nursery) → (continuation (some p) n).told ≡ n.told
unfolding continuation
continuation-told p n = ground arith

pub continuation-error : (p : ℕ) (n : Nursery) → (continuation (some p) n).error ≡ n.error
unfolding continuation
continuation-error p n = ground arith

pub continuation-cancelling :
    (p : ℕ) (n : Nursery) → (continuation (some p) n).cancelling ≡ n.cancelling
unfolding continuation
continuation-cancelling p n = ground arith

pub tell-Core : (ts : List ℕ) {n : Nursery} → Core n → Core (record n { told = ts })
tell-Core ts v = record {
  counted = v.counted;
  open_ = v.open_;
  closed = v.closed;
  once = v.once;
  last = v.last;
  finished = v.finished;
  sound = v.sound;
  lives = v.lives;
}

-- What cancelling each of a list of tasks makes of a nursery: all of them were told, and the tasks that
-- are left are among those before.
pub record Told (quick : ℕ → Bool) (ps : List ℕ) (n m : Nursery) : Type 0 where
  pub core : Core m
  pub unique : IsUnique m.tasks
  pub fewer : (i : ℕ) → has i m.tasks ≡ true → has i n.tasks ≡ true
  pub still : (i : ℕ) → has i n.told ≡ true → has i m.told ≡ true
  pub now : (i : ℕ) → has i ps ≡ true → has i m.told ≡ true
  pub kept : (i : ℕ) → quick i ≡ false → has i n.tasks ≡ true → has i m.tasks ≡ true
  pub same_error : m.error ≡ n.error
  pub same_cancelling : m.cancelling ≡ n.cancelling

has-remove_slow :
    (quick : ℕ → Bool) (p i : ℕ) (xs : List ℕ)
    → quick p ≡ true
    → quick i ≡ false
    → has i xs ≡ true
    → has i (remove p xs) ≡ true
has-remove_slow quick p i xs ends slow h = elim (Bool-cases (p == i)) [
  | inl e ↦ absurd (ground (arith, subst (λ k. quick k ≡ true) ((==_iff p i).0 e) ends, slow))
  | inr e ↦ rw (has-remove_other p i xs e) h
]

-- One task is told, and ends at once or not.
pub tell_one-Told :
    (quick : ℕ → Bool) (p : ℕ) (n : Nursery)
    → Core n
    → IsUnique n.tasks
    → has p n.tasks ≡ true
    → let m = record n { told = n.told ++ p ∷ [] } in
      Told quick (p ∷ []) n (if quick p then continuation (some p) m else m)
unfolding has
tell_one-Told quick p n v u here =
    let m : Nursery = record n { told = n.told ++ p ∷ [] } in
    let c = tell-Core (n.told ++ p ∷ []) v in
    elim (Bool-cases (quick p)) [
      | inl ends ↦ simp ends (record {
        core = continuation-Core p m c here;
        unique = rw (continuation-tasks p m) (remove-IsUnique p n.tasks u);
        fewer = λ i h. has-remove_within p i n.tasks (rw (continuation-tasks p m) at h);
        still = λ i h. rw (continuation-told p m) (has-append i n.told (p ∷ []) h);
        now = λ i h. rw (continuation-told p m) (has-append_right i n.told (p ∷ []) h);
        kept =
            λ i slow h. rw (continuation-tasks p m) (has-remove_slow quick p i n.tasks ends slow h);
        same_error = continuation-error p m;
        same_cancelling = continuation-cancelling p m;
      })
      | inr stays ↦ simp stays (record {
        core = c;
        unique = u;
        fewer = λ i h. h;
        still = λ i h. has-append i n.told (p ∷ []) h;
        now = λ i h. has-append_right i n.told (p ∷ []) h;
        kept = λ i slow h. h;
        same_error = refl;
        same_cancelling = refl;
      })
    ]

pub within-told :
    (quick : ℕ → Bool) (p : ℕ) (ps : List ℕ) (n : Nursery)
    → has p ps ≡ false
    → within ps n.tasks ≡ true
    → let m = record n { told = n.told ++ p ∷ [] } in
      within ps (if quick p then continuation (some p) m else m).tasks ≡ true
within-told quick p ps n a h = elim (Bool-cases (quick p)) [
  | inl ends ↦
      simp (ends, continuation-tasks p (record n { told = n.told ++ p ∷ [] }))
        (within-remove p ps n.tasks a h)
  | inr stays ↦ simp stays h
]

pub cancel_each-Told :
    (quick : ℕ → Bool) (ps : List ℕ) (n : Nursery)
    → Core n
    → IsUnique n.tasks
    → IsUnique ps
    → within ps n.tasks ≡ true
    → Told quick ps n (cancel_each quick ps n)
unfolding cancel_each within has
cancel_each-Told quick [] n v u w h = record {
  core = v;
  unique = u;
  fewer = λ i k. k;
  still = λ i k. k;
  now = λ i k. ground (arith, k);
  kept = λ i q k. k;
  same_error = refl;
  same_cancelling = refl;
}
cancel_each-Told quick (p ∷ ps) n v u w h =
    let a = tell_one-Told quick p n v u (ground (arith, h)) in
    let b =
      cancel_each-Told quick ps
        (if quick p
          then continuation (some p) (record n { told = n.told ++ p ∷ [] })
          else record n { told = n.told ++ p ∷ [] })
        a.core a.unique w.1 (within-told quick p ps n w.0 (ground (arith, h))) in
    record {
      core = b.core;
      unique = b.unique;
      fewer = λ i k. a.fewer i (b.fewer i k);
      still = λ i k. b.still i (a.still i k);
      now = λ i k. elim (Bool-cases (p == i)) [
        | inl e ↦ b.still i (a.now i (ground (arith, e)))
        | inr e ↦ b.now i (ground (arith, e, k))
      ];
      kept = λ i q k. b.kept i q (a.kept i q k);
      same_error = b.same_error ∙ a.same_error;
      same_cancelling = b.same_cancelling ∙ a.same_cancelling;
    }

within-cons : (x : ℕ) (ps xs : List ℕ) → within ps xs ≡ true → within ps (x ∷ xs) ≡ true
unfolding within has
within-cons x [] xs h = refl
within-cons x (p ∷ ps) xs h = ground (arith, h, within-cons x ps xs)

pub within_self : (ps : List ℕ) → within ps ps ≡ true
unfolding within has
within_self [] = refl
within_self (p ∷ ps) = ground (arith, within-cons p ps ps (within_self ps))
