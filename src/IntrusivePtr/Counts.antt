-- ===== src/IntrusivePtr/Counts.antt =====
-- The counts of corral/detail/IntrusivePtr.h, over any sequence of operations.
use corral.Base.{
  ℕ, zero, suc, ap, get_elem?-within, ◌+◌, ◌<◌, ◌≡◌, refl, Bool, true, not, ◌&&◌, Option, none,
  some, List, [], ◌∷◌, ◌++◌, if◌then◌else◌, ◌==◌, ltb, length, get_elem?, has, Option-cases, inl,
  inr, arith,
}
use corral.IntrusivePtr.{
  Store, pointee, replace, point, ref, deref, hold, adopt, copy, move, assign, assign_copy,
  assign_move, destroy,
}

-- How many pointers of a list, or which one pointer, point to an object.
abbrev pub points : ℕ → Option ℕ → ℕ
points o none = 0
points o (some q) = if o == q then 1 else 0

unfoldable pub refs : ℕ → List (Option ℕ) → ℕ
refs o [] = 0
refs o (p ∷ ps) = points o p + refs o ps

refs-append :
    (o : ℕ) (ps : List (Option ℕ)) (p : Option ℕ) → refs o (ps ++ p ∷ []) ≡ refs o ps + points o p
unfolding refs
refs-append o [] p = omega arith
refs-append o (q ∷ ps) p = omega (arith, refs-append o ps p)

refs-replace :
    (o i : ℕ) (p : Option ℕ) (ps : List (Option ℕ)) {q : Option ℕ}
    → get_elem? ps i ≡ some q
    → refs o (replace i p ps) + points o q ≡ refs o ps + points o p
unfolding refs replace
refs-replace o i p [] e = ground (arith, e)
refs-replace o zero p (r ∷ ps) e = ground (arith, e)
refs-replace o (suc i) p (r ∷ ps) e = omega (arith, refs-replace o i p ps e)

refs-pointee : (o i : ℕ) (ps : List (Option ℕ)) → get_elem? ps i ≡ some (some o) → 0 < refs o ps
unfolding refs
refs-pointee o i [] e = ground (arith, e)
refs-pointee o zero (r ∷ ps) e = ground (arith, e)
refs-pointee o (suc i) (r ∷ ps) e = omega (arith, refs-pointee o i ps e)

-- The counts, while one more reference is about to be given to a pointer or up.
pub record Owed (p : Option ℕ) (s : Store) : Type 0 where
  pub counted : (o : ℕ) → s.ref_count o ≡ refs o s.ptrs + points o p
  pub sound : (o : ℕ) → has o s.deleted ≡ true → s.ref_count o ≡ 0

-- Each object's count is the number of pointers to it, and nothing points to an object that has been
-- deleted.
abbrev pub Inv : Store → Type 0
Inv s = Owed none s

abbrev pub live : Option ℕ → Store → Bool
live none s = true
live (some o) s = not (has o s.deleted)

ref-Owed : (p : Option ℕ) {s : Store} → Inv s → live p s ≡ true → Owed p (ref p s)
ref-Owed none v l = v
ref-Owed (some q) {s} v l = record {
  counted = λ o. ground (arith, v.counted o);
  sound = λ o h. ground (arith, v.sound o h, h, l);
}

deref-Owed : (p : Option ℕ) {s : Store} → Owed p s → Inv (deref p s)
unfolding has
deref-Owed none v = v
deref-Owed (some q) {s} v = record {
  counted = λ o. ground (arith, v.counted o);
  sound = λ o h. ground (arith, v.sound o, h);
}

hold-Owed : (p : Option ℕ) {s : Store} → Owed p s → Inv (hold p s)
hold-Owed p {s} v = record {
  counted = λ o. omega (arith, v.counted o, refs-append o s.ptrs p);
  sound = v.sound;
}

point-Owed :
    (i : ℕ) (p : Option ℕ) {s : Store} {q : Option ℕ}
    → Owed p s
    → get_elem? s.ptrs i ≡ some q
    → Owed q (point i p s)
point-Owed i p {s} v e = record {
  counted = λ o. omega (arith, v.counted o, refs-replace o i p s.ptrs e);
  sound = v.sound;
}

pointee-at : (i : ℕ) (s : Store) {q : Option ℕ} → get_elem? s.ptrs i ≡ some q → pointee i s ≡ q
pointee-at i s e = rw (pointee, e) refl

pointee-past : (i : ℕ) (s : Store) → get_elem? s.ptrs i ≡ none → pointee i s ≡ none
pointee-past i s e = rw (pointee, e) refl

pointee-live : (i : ℕ) (s : Store) → Inv s → live (pointee i s) s ≡ true
pointee-live i s v = elim (Option-cases (get_elem? s.ptrs i)) [
  | inl e ↦ rw (pointee-past i s e) refl
  | inr (q, e) ↦ rw (pointee-at i s e) (held q e)
]
  where
    held : (q : Option ℕ) → get_elem? s.ptrs i ≡ some q → live q s ≡ true
    held none e = refl
    held (some o) e = ground (arith, v.counted o, v.sound o, refs-pointee o i s.ptrs e)

length-replace : (i : ℕ) (p : Option ℕ) (ps : List (Option ℕ)) → length (replace i p ps) ≡ length ps
unfolding replace
length-replace i p [] = refl
length-replace zero p (q ∷ ps) = refl
length-replace (suc i) p (q ∷ ps) = ap suc (length-replace i p ps)

ref-ptrs : (p : Option ℕ) (s : Store) → (ref p s).ptrs ≡ s.ptrs
ref-ptrs none s = refl
ref-ptrs (some o) s = refl

assign-Inv : (i : ℕ) (p : Option ℕ) {s : Store} → Owed p s → i < length s.ptrs → Inv (assign i p s)
assign-Inv i p {s} v within =
    let (q, e) = get_elem?-within s.ptrs i within in
    rw (pointee-at i s e) (deref-Owed q (point-Owed i p v e))

-- What a client does with pointers. A plain pointer is taken only to an object that has not been
-- deleted, and the pointers used are among those made.
pub data Call : Type 0 where
  adopts : Option ℕ → Call
  copies : ℕ → Call
  moves : ℕ → Call
  assigns_copy : ℕ → ℕ → Call
  assigns_move : ℕ → ℕ → Call
  destroys : ℕ → Call

abbrev pub made : ℕ → Store → Bool
made i s = ltb i (length s.ptrs)

unfoldable pub allowed : Call → Store → Bool
allowed (adopts p) s = live p s
allowed (copies i) s = made i s
allowed (moves i) s = made i s
allowed (assigns_copy i j) s = made i s && made j s
allowed (assigns_move i j) s = made i s && made j s
allowed (destroys i) s = made i s

unfoldable pub step : Call → Store → Store
step (adopts p) s = adopt p s
step (copies i) s = copy i s
step (moves i) s = move i s
step (assigns_copy i j) s = assign_copy i j s
step (assigns_move i j) s = assign_move i j s
step (destroys i) s = destroy i s

step-Inv : (c : Call) {s : Store} → Inv s → allowed c s ≡ true → Inv (step c s)
unfolding step allowed
step-Inv (adopts p) {s} v ok = hold-Owed p (ref-Owed p v ok)
step-Inv (copies i) {s} v ok =
    hold-Owed (pointee i s) (ref-Owed (pointee i s) v (pointee-live i s v))
step-Inv (moves i) {s} v ok =
    let (q, e) = get_elem?-within s.ptrs i (ground (arith, ok)) in
    rw (pointee-at i s e) (hold-Owed q (point-Owed i none v e))
step-Inv (assigns_copy i j) {s} v ok =
    assign-Inv i (pointee j s) (ref-Owed (pointee j s) v (pointee-live j s v))
      (ground (arith, ok, ref-ptrs (pointee j s) s))
step-Inv (assigns_move i j) {s} v ok =
    let (q, e) = get_elem?-within s.ptrs j (ground (arith, ok)) in
    rw (pointee-at j s e)
      (assign-Inv i q (point-Owed j none v e) (ground (arith, ok, length-replace j none s.ptrs)))
step-Inv (destroys i) {s} v ok = assign-Inv i none v (ground (arith, ok))

unfoldable pub all_allowed : List Call → Store → Bool
unfolding allowed step
all_allowed [] s = true
all_allowed (c ∷ cs) s = let rest = all_allowed cs (step c s) in allowed c s && rest

unfoldable pub perform : List Call → Store → Store
unfolding step
perform [] s = s
perform (c ∷ cs) s = perform cs (step c s)

-- Over any sequence of constructions, moves, assignments and destructions in which a plain pointer is
-- taken only to an object that has not been deleted, each object's count stays the number of the
-- pointers to it, and no pointer is left to an object that has been deleted.
pub perform-Inv :
    (cs : List Call) (s : Store) → Inv s → all_allowed cs s ≡ true → Inv (perform cs s)
unfolding perform all_allowed
perform-Inv [] s v ok = v
perform-Inv (c ∷ cs) s v ok =
    perform-Inv cs (step c s) (step-Inv c v (ground (arith, ok))) (ground (arith, ok))

-- Destroying a pointer deletes its object exactly if no other pointer points to it.
pub destroy-last :
    (i o : ℕ) (s : Store)
    → Inv s
    → get_elem? s.ptrs i ≡ some (some o)
    → (destroy i s).deleted ≡ (if refs o (destroy i s).ptrs == 0 then o ∷ s.deleted else s.deleted)
destroy-last i o s v e =
    rw (pointee-at i s e, v.counted o) (ground (arith, refs-replace o i none s.ptrs e))
