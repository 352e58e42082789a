-- ===== src/Queue/Refine.antt =====
-- Any sequence of calls on the circular buffer (corral/detail/Queue.h) against the same sequence
-- on a plain list, which is what a queue promises.
use corral.Base.{
  ℕ, ◌≡◌, leb, Option, none, some, List, [], ◌∷◌, ◌++◌, Bool-cases, inl, inr, if◌then◌else◌, length,
  take, drop, get_elem?-cons, arith,
}
use corral.Queue.{Queue, front, pop_front, push_back, append, pop_front_to}
use corral.Queue.Rep.{Rep, index, pop_front-Rep}
use corral.Queue.Grow.{push_back-Rep}
use corral.Queue.Append.{append-Rep}
use corral.Queue.PopTo.{pop_front_to-Rep}

pub data Op (A : Type 0) : Type 0 where
  push : A → Op A
  pop : Op A
  extend : List A → Op A
  pop_to : ℕ → Op A

module _ {A : Type 0} where
  -- `front()` and then `pop_front()`.
  unfoldable pub take_front : Queue A → Option (List A × Queue A)
  unfolding front pop_front
  take_front q = elim (front q) [
    | none ↦ none
    | some x ↦ elim (pop_front q) [ none ↦ none | some q' ↦ some (x ∷ [], q') ]
  ]

  -- One call: the elements that it hands out, and the queue after it. `none` is a fault.
  unfoldable pub call : Op A → Queue A → Option (List A × Queue A)
  unfolding take_front
  call (push x) q = some ([], push_back x q)
  call pop q = take_front q
  call (extend xs) q = some ([], append xs q)
  call (pop_to n) q = pop_front_to n q

  -- The same on a list.
  abbrev pub call_list : Op A → List A → Option (List A × List A)
  call_list (push x) xs = some ([], xs ++ x ∷ [])
  call_list pop [] = none
  call_list pop (x ∷ xs) = some (x ∷ [], xs)
  call_list (extend ys) xs = some ([], xs ++ ys)
  call_list (pop_to n) xs = if leb n (length xs) then some (take n xs, drop n xs) else none

  abbrev pub prefix {κ} : {S : Type κ} → List A → Option (List A × S) → Option (List A × S)
  prefix out none = none
  prefix out (some (more, s)) = some (out ++ more, s)

  -- A call and then the rest, what both hand out together.
  abbrev pub and_then {κ} :
      {S : Type κ} → Option (List A × S) → (S → Option (List A × S)) → Option (List A × S)
  and_then none rest = none
  and_then (some (out, s)) rest = prefix out (rest s)

  abbrev pub run_list : List (Op A) → List A → Option (List A × List A)
  run_list [] xs = some ([], xs)
  run_list (c ∷ cs) xs = and_then (call_list c xs) (run_list cs)

  unfoldable pub run : List (Op A) → Queue A → Option (List A × Queue A)
  unfolding call
  run [] q = some ([], q)
  run (c ∷ cs) q = and_then (call c q) (run cs)

  -- Both fault, or both hand out the same elements and hold the same ones after.
  pub data Agree : Option (List A × Queue A) → Option (List A × List A) → Type 0 where
    both_fault : Agree none none
    both_run :
        {out : List A} {q : Queue A} {xs : List A}
        → Rep q xs
        → Agree (some (out, q)) (some (out, xs))

  prefix-Agree :
      (out : List A) {a : Option (List A × Queue A)} {b : Option (List A × List A)}
      → Agree a b
      → Agree (prefix out a) (prefix out b)
  prefix-Agree out both_fault = both_fault
  prefix-Agree out (both_run r) = both_run r

  and_then-Agree :
      {a : Option (List A × Queue A)} {b : Option (List A × List A)}
      (f : Queue A → Option (List A × Queue A)) (g : List A → Option (List A × List A))
      → Agree a b
      → ((q : Queue A) (xs : List A) → Rep q xs → Agree (f q) (g xs))
      → Agree (and_then a f) (and_then b g)
  and_then-Agree f g both_fault h = both_fault
  and_then-Agree f g (both_run {out} {q} {xs} r) h = prefix-Agree out (h q xs r)

  take_front-Agree :
      {q : Queue A} (xs : List A) → Rep q xs → Agree (take_front q) (call_list pop xs)
  unfolding take_front
  take_front-Agree {q} [] r =
      let e : q.buffer q.head ≡ none = ground (arith, r.cells q.head, r.outside q.head) in
      rw (e, take_front) both_fault
  take_front-Agree {q} (x ∷ xs) r =
      let (q', e, r', _) = pop_front-Rep r in
      let f : take_front q ≡ some (x ∷ [], q') =
        ground (arith, r.cells q.head, e, get_elem?-cons x xs (index q.head q.capacity q.head)) in
      rw f (both_run r')

  pop_to-Agree :
      (n : ℕ) {q : Queue A} {xs : List A}
      → Rep q xs
      → Agree (pop_front_to n q) (call_list (pop_to n) xs)
  pop_to-Agree n {q} {xs} r = elim (Bool-cases (leb n (length xs))) [
    | inl enough ↦
        let (q', e, r', _) = pop_front_to-Rep n r (ground (arith, r.counted)) in
        rw (e, enough) (both_run r')
    | inr short ↦
        let e : pop_front_to n q ≡ none = unfold pop_front_to in ground (arith, r.counted) in
        rw (e, short) both_fault
  ]

  call-Agree : (c : Op A) {q : Queue A} {xs : List A} → Rep q xs → Agree (call c q) (call_list c xs)
  unfolding call
  call-Agree (push x) r = both_run (push_back-Rep x r).0
  call-Agree pop {xs = xs} r = take_front-Agree xs r
  call-Agree (extend ys) r = both_run (append-Rep ys r)
  call-Agree (pop_to n) r = pop_to-Agree n r

  -- Every sequence of calls on a queue that holds `xs` hands out what it hands out of the list `xs`,
  -- ends holding what the list ends as, and faults exactly when the list runs short.
  pub run_refines :
      (cs : List (Op A)) {q : Queue A} {xs : List A} → Rep q xs → Agree (run cs q) (run_list cs xs)
  unfolding run
  run_refines [] r = both_run r
  run_refines (c ∷ cs) r =
      and_then-Agree (run cs) (run_list cs) (call-Agree c r)
        (λ q xs h. run_refines cs {q = q} {xs = xs} h)
