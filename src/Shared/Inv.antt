-- ===== src/Shared/Inv.antt =====
-- The invariant of a shared operation (corral/Shared.h), and the calls that wake nobody.
use corral.Base.{
  ℕ, ◌+◌, ◌≡◌, refl, sym, subst, ap, Bool, true, false, not, ◌&&◌, ◌||◌, List, [], ◌∷◌, ◌++◌,
  update, has, remove, has-remove_self, IsUnique, remove-IsUnique, if◌then◌else◌, Bool-cases, inl,
  inr, arith,
}
use corral.Shared.{
  Result, incomplete, cancel_pending, cancelling, cancelled, Outcome, returned, thrown, State,
  fresh, is_incomplete, is_pending, is_cancelling, is_empty, contains_one_item, front_or, construct,
  detach, early_cancel, await_early_cancel, drop_parent, await_resume, store, fetch,
}

abbrev pub is_open : {A : Type 0} → Result A → Bool
is_open incomplete = true
is_open cancelling = true
is_open _ = false

-- Every awaiter of the list is attached.
unfoldable pub all_attached : (ℕ → Bool) → List ℕ → Bool
all_attached f [] = true
all_attached f (i ∷ is) = f i && all_attached f is

-- Each parent waits once and is attached, and the oldest of them is the caller shown in a backtrace;
-- parents wait only for an operation without a result, and one that is being cancelled has one parent.
pub record Inv {A : Type 0} (s : State A) : Type 0 where
  pub unique : IsUnique s.parents
  pub quiet : s.waking ≡ []
  pub oldest : s.caller ≡ front_or s.caller s.parents
  pub unfinished : (is_empty s.parents || is_open s.result) ≡ true
  pub alone : (not (is_cancelling s.result) || contains_one_item s.parents) ≡ true
  pub linked : all_attached s.attached s.parents ≡ true

pub fresh-Inv : {A : Type 0} → Inv (fresh {A = A})
unfolding all_attached
fresh-Inv = record {
  unique = tt;
  quiet = refl;
  oldest = refl;
  unfinished = refl;
  alone = refl;
  linked = refl;
}

pub attach-linked :
    (f : ℕ → Bool) (i : ℕ) (xs : List ℕ)
    → all_attached f xs ≡ true
    → all_attached (update f i true) xs ≡ true
unfolding all_attached
attach-linked f i [] h = refl
attach-linked f i (x ∷ xs) h = ground (arith, attach-linked f i xs)

pub detach-linked :
    (f : ℕ → Bool) (i : ℕ) (xs : List ℕ)
    → has i xs ≡ false
    → all_attached f xs ≡ true
    → all_attached (update f i false) xs ≡ true
unfolding all_attached has
detach-linked f i [] e h = refl
detach-linked f i (x ∷ xs) e h = ground (arith, detach-linked f i xs)

pub remove-linked :
    (f : ℕ → Bool) (i : ℕ) (xs : List ℕ)
    → all_attached f xs ≡ true
    → all_attached f (remove i xs) ≡ true
unfolding all_attached remove
remove-linked f i [] h = refl
remove-linked f i (x ∷ xs) h = ground (arith, remove-linked f i xs)

pub snoc-linked :
    (f : ℕ → Bool) (i : ℕ) (xs : List ℕ)
    → all_attached f xs ≡ true
    → f i ≡ true
    → all_attached f (xs ++ i ∷ []) ≡ true
unfolding all_attached
snoc-linked f i [] h e = ground arith
snoc-linked f i (x ∷ xs) h e = ground (arith, snoc-linked f i xs)

pub linked-attached :
    (f : ℕ → Bool) (i : ℕ) (xs : List ℕ) → all_attached f xs ≡ true → has i xs ≡ true → f i ≡ true
unfolding all_attached has
linked-attached f i [] h e = absurd (ground arith)
linked-attached f i (x ∷ xs) h e = ground (arith, linked-attached f i xs, λ (d : x ≡ i). ap f d)

pub is_empty-eq_nil : (xs : List ℕ) → is_empty xs ≡ true → xs ≡ []
is_empty-eq_nil [] e = refl
is_empty-eq_nil (x ∷ xs) e = cc

pub front_or-append :
    (c : ℕ) (xs ys : List ℕ) → is_empty xs ≡ false → front_or c (xs ++ ys) ≡ front_or c xs
front_or-append c [] ys e = cc
front_or-append c (x ∷ xs) ys e = refl

pub has-not_empty : (i : ℕ) (xs : List ℕ) → has i xs ≡ true → is_empty xs ≡ false
unfolding has
has-not_empty i [] h = cc
has-not_empty i (x ∷ xs) h = refl

pub only_item : (i : ℕ) (xs : List ℕ) → contains_one_item xs ≡ true → has i xs ≡ true → xs ≡ i ∷ []
unfolding has
only_item i [] e h = cc
only_item i (x ∷ []) e h = ground arith
only_item i (x ∷ y ∷ xs) e h = cc

pub front_or_idem : (c : ℕ) (xs : List ℕ) → front_or c xs ≡ front_or (front_or c xs) xs
front_or_idem c [] = refl
front_or_idem c (x ∷ xs) = refl

module _ {A : Type 0} where
  pub construct-Inv : (i : ℕ) (s : State A) → Inv s → Inv (construct i s)
  construct-Inv i s v = record {
    unique = v.unique;
    quiet = v.quiet;
    oldest = v.oldest;
    unfinished = v.unfinished;
    alone = v.alone;
    linked = attach-linked s.attached i s.parents v.linked;
  }

  pub detach-Inv : (i : ℕ) (s : State A) → has i s.parents ≡ false → Inv s → Inv (detach i s)
  detach-Inv i s h v = record {
    unique = v.unique;
    quiet = v.quiet;
    oldest = v.oldest;
    unfinished = v.unfinished;
    alone = v.alone;
    linked = detach-linked s.attached i s.parents h v.linked;
  }

  -- Nobody waits.
  pub done-Inv :
      (s : State A) → s.parents ≡ [] → s.waking ≡ [] → is_cancelling s.result ≡ false → Inv s
  unfolding all_attached
  done-Inv s p w r = record {
    unique = subst IsUnique (sym p) tt;
    quiet = w;
    oldest = sym (ap (front_or s.caller) p);
    unfinished = ground (arith, ap is_empty p);
    alone = ground (arith, r);
    linked = ap (all_attached s.attached) p;
  }

  pub drop_parent-Inv :
      (i : ℕ) (s : State A)
      → contains_one_item s.parents ≡ false
      → is_empty s.parents ≡ false
      → Inv s
      → Inv (drop_parent i s)
  unfolding drop_parent remove
  drop_parent-Inv i s many some_wait v = record {
    unique = remove-IsUnique i s.parents v.unique;
    quiet = ap (remove i) v.quiet;
    oldest = front_or_idem s.caller (remove i s.parents);
    unfinished = ground (arith, v.unfinished, some_wait);
    alone = ground (arith, v.alone, many);
    linked =
        detach-linked s.attached i (remove i s.parents) (has-remove_self i s.parents v.unique)
          (remove-linked s.attached i s.parents v.linked);
  }

  pub cancelling_one-Inv :
      (s : State A)
      → contains_one_item s.parents ≡ true
      → Inv s
      → Inv (record s { result = cancelling; cancels = s.cancels + 1 })
  cancelling_one-Inv s one v = record {
    unique = v.unique;
    quiet = v.quiet;
    oldest = v.oldest;
    unfinished = ground arith;
    alone = one;
    linked = v.linked;
  }

  pub fetch-Inv :
      (o : Outcome A) (s : State A)
      → (is_empty s.parents || not (is_incomplete s.result)) ≡ true
      → Inv s
      → Inv (fetch o s)
  fetch-Inv o s e v = elim (Bool-cases (is_incomplete s.result || is_pending s.result)) [
    | inl f ↦ rw f (
        done-Inv (record s { result = store o })
          (is_empty-eq_nil s.parents (ground (arith, e, f, v.unfinished))) v.quiet (stored o))
    | inr f ↦ rw f v
  ]
    where
      stored : (o : Outcome A) → is_cancelling (store o) ≡ false
      stored (returned a) = refl
      stored (thrown e) = refl

  pub await_resume-Inv :
      (i : ℕ) (optional : Bool) (o : Outcome A) (s : State A)
      → (is_empty s.parents || not (is_incomplete s.result)) ≡ true
      → Inv s
      → Inv (await_resume i optional o s).0
  unfolding await_resume
  await_resume-Inv i optional o s e v = elim (Bool-cases (s.attached i)) [
    | inl on ↦ rw on (fetch-Inv o s e v)
    | inr off ↦ rw off v
  ]

  -- Nobody waits, and the operation answers.
  abbrev skip_by : Bool → ℕ → State A → State A × Bool
  skip_by now i s =
      if now
      then (detach i (record s { result = cancelled }), true)
      else (record s { result = cancel_pending }, false)

  pub skip_by-Inv :
      (now : Bool) (i : ℕ) (s : State A) → s.parents ≡ [] → Inv s → Inv (skip_by now i s).0
  skip_by-Inv true i s p v = done-Inv (detach i (record s { result = cancelled })) p v.quiet refl
  skip_by-Inv false i s p v = done-Inv (record s { result = cancel_pending }) p v.quiet refl

  pub early_cancel-Inv :
      (i : ℕ) (now : Bool) (s : State A)
      → has i s.parents ≡ false
      → Inv s
      → Inv (early_cancel i now s).0
  unfolding early_cancel
  early_cancel-Inv i now s h v = elim (Bool-cases (is_empty s.parents && is_incomplete s.result)) [
    | inr e ↦ rw e (detach-Inv i s h v)
    | inl e ↦ rw e (skip_by-Inv now i s (is_empty-eq_nil s.parents (ground (arith, e))) v)
  ]

  pub await_early_cancel-Inv :
      (i : ℕ) (now : Bool) (s : State A)
      → has i s.parents ≡ false
      → Inv s
      → Inv (await_early_cancel i now s).0
  await_early_cancel-Inv i now s h v = elim (Bool-cases (s.attached i)) [
    | inl on ↦ rw on (early_cancel-Inv i now s h v)
    | inr off ↦ rw off v
  ]

  pub await_early_cancel-new :
      (i j : ℕ) (now : Bool) (s : State A)
      → has j s.parents ≡ false
      → has j (await_early_cancel i now s).0.parents ≡ false
  unfolding early_cancel
  await_early_cancel-new i j now s h = ground (arith, h)
