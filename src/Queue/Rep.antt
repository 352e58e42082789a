-- ===== src/Queue/Rep.antt =====
-- Which list a queue holds, and the operations on single elements: `push_back`, `front`,
-- `pop_front` and `grow` (corral/detail/Queue.h).
use corral.Base.{
  ℕ, ◌+◌, ◌-◌, ◌≤◌, ◌<◌, ◌≡◌, refl, none, some, List, [], ◌∷◌, ◌++◌, if◌then◌else◌, ltb, leb, ◌==◌,
  length, get_elem?, get_elem?-past, get_elem?-snoc, get_elem?-cons, length-append, update, arith,
}
use corral.Queue.{Queue, make, pop_front, place_back}

-- The position in the list of the element in cell `k`, for a buffer that starts at `h`.
abbrev pub index : ℕ → ℕ → ℕ → ℕ
index h cap k = if leb h k then k - h else k + cap - h

abbrev pub wrap : ℕ → ℕ → ℕ
wrap cap k = if ltb k cap then k else k - cap

-- The queue holds `xs`, oldest first: each cell has the element of its position, and every other
-- cell, inside the buffer and outside, has none.
pub record Rep {A : Type 0} (q : Queue A) (xs : List A) : Type 0 where
  pub counted : q.size ≡ length xs
  pub fits : q.size ≤ q.capacity
  pub head_in : q.head ≤ q.capacity - 1
  pub tail_at : q.tail ≡ wrap q.capacity (q.head + q.size)
  pub cells : (k : ℕ) → k < q.capacity → q.buffer k ≡ get_elem? xs (index q.head q.capacity k)
  pub outside : (k : ℕ) → q.capacity ≤ k → q.buffer k ≡ none

module _ {A : Type 0} where
  pub make-Rep : (n : ℕ) → Rep {A = A} (make n) []
  unfolding make
  make-Rep n = record {
    counted = refl;
    fits = omega arith;
    head_in = omega arith;
    tail_at = ground arith;
    cells = λ k h. refl;
    outside = λ k h. refl;
  }

  place_back-cells :
      {q : Queue A} {xs : List A} (x : A)
      → Rep q xs
      → q.size < q.capacity
      → (k : ℕ) → k < q.capacity
      → update q.buffer q.tail (some x) k ≡ get_elem? (xs ++ x ∷ []) (index q.head q.capacity k)
  place_back-cells {q} {xs} x r room k h =
      ground (arith, r.cells k, get_elem?-snoc xs x (index q.head q.capacity k))

  -- Writing past the last element, with room for it, appends it.
  pub place_back-Rep :
      {q : Queue A} {xs : List A} (x : A)
      → Rep q xs
      → q.size < q.capacity
      → Rep (place_back x q) (xs ++ x ∷ [])
  place_back-Rep {q} {xs} x r room = record {
    counted = omega (arith, length-append xs (x ∷ []), r.counted);
    fits = omega arith;
    head_in = r.head_in;
    tail_at = ground arith;
    cells = place_back-cells x r room;
    outside = λ k h. ground (arith, r.outside k);
  }

  pub pop_front-Rep :
      {q : Queue A} {x : A} {xs : List A}
      → Rep q (x ∷ xs)
      → (q' : Queue A) × (pop_front q ≡ some q') × Rep q' xs × (q'.capacity ≡ q.capacity)
  unfolding pop_front
  pop_front-Rep {q} {x} {xs} r = (popped, rw (first, pop_front), holds, refl)
    where
      popped : Queue A
      popped = record q {
        buffer = update q.buffer q.head none;
        head = if (q.head + 1) == q.capacity then 0 else q.head + 1;
        size = q.size - 1;
      }

      first : q.buffer q.head ≡ some x
      first = ground (arith, r.cells q.head, get_elem?-cons x xs (index q.head q.capacity q.head))

      holds : Rep popped xs
      holds = record {
        counted = omega (arith, r.counted);
        fits = omega (arith, r.fits);
        head_in = ground arith;
        tail_at = ground arith;
        cells = λ k h. ground (
          arith,
          r.cells k,
          get_elem?-cons x xs (index q.head q.capacity k),
          get_elem?-past xs (index popped.head q.capacity k),
        );
        outside = λ k h. ground (arith, r.outside k);
      }
