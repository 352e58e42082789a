-- ===== src/Queue/Grow.antt =====
-- `grow` and `push_back` (corral/detail/Queue.h).
use corral.Base.{
  ℕ, ◌+◌, ◌-◌, ◌*◌, ◌≤◌, ◌<◌, max, ◌≡◌, refl, ◌∙◌, Option, none, Bool-cases, inl, inr, List, [],
  ◌∷◌, ◌++◌, if◌then◌else◌, ◌==◌, length, get_elem?, get_elem?-past, arith,
}
use corral.Queue.{Queue, make, first_range, second_range, grow, push_back}
use corral.Queue.Cells.{move_range, move_range-cell}
use corral.Queue.Rep.{Rep, place_back-Rep}

module _ {A : Type 0} where
  -- The two ranges together are the elements, in order.
  pub ranges-Rep :
      {q : Queue A} {xs : List A}
      → Rep q xs
      → let (s1, n1) = first_range q in
        let (s2, n2) = second_range q in
        (n1 + n2 ≡ q.size)
        × (s1 + n1 ≤ q.capacity)
        × (s2 + n2 ≤ q.capacity)
        × ((i : ℕ) → i < n1 → q.buffer (s1 + i) ≡ get_elem? xs i)
        × ((i : ℕ) → i < n2 → q.buffer (s2 + i) ≡ get_elem? xs (n1 + i))
  unfolding first_range second_range
  ranges-Rep {q} {xs} r = (
    ground (arith, r.counted, r.fits, r.head_in, r.tail_at),
    ground (arith, r.counted, r.fits, r.head_in, r.tail_at),
    ground (arith, r.counted, r.fits, r.head_in, r.tail_at),
    λ i h. ground (arith, r.cells (q.head + i)),
    λ i h. ground (arith, r.cells i),
  )

  -- Two ranges that hold `xs` between them, moved one after the other into an empty buffer.
  move_ranges-cell :
      (m : ℕ → Option A) (s1 n1 s2 n2 : ℕ) (xs : List A)
      → n1 + n2 ≡ length xs
      → ((i : ℕ) → i < n1 → m (s1 + i) ≡ get_elem? xs i)
      → ((i : ℕ) → i < n2 → m (s2 + i) ≡ get_elem? xs (n1 + i))
      → (k : ℕ) → move_range m s2 n2 n1 (move_range m s1 n1 0 (λ _. none)) k ≡ get_elem? xs k
  move_ranges-cell m s1 n1 s2 n2 xs e first second k = ground (
    arith,
    move_range-cell m s2 n2 n1 (move_range m s1 n1 0 (λ _. none)) k,
    move_range-cell m s1 n1 0 (λ _. none) k,
    first (k - 0),
    second (k - n1),
    get_elem?-past xs k,
  )

  -- The new buffer holds the same elements from its start, and has room for one more.
  pub grow-Rep :
      {q : Queue A} {xs : List A} (n : ℕ)
      → Rep q xs
      → Rep (grow n q) xs × ((grow n q).capacity ≡ max (max n 8) (q.capacity * 2))
  unfolding grow make
  grow-Rep {q} {xs} n r = (
    record {
      counted = r.counted;
      fits = omega (arith, r.fits);
      head_in = omega arith;
      tail_at = ground (arith, ranges-Rep r, r.fits);
      cells = λ k h. ground (arith, moved k);
      outside = λ k h. ground (arith, moved k, get_elem?-past xs k, r.counted, r.fits);
    },
    refl,
  )
    where
      moved :
          (k : ℕ)
          → move_range q.buffer
              (second_range q).0
              (second_range q).1
              (first_range q).1
              (move_range q.buffer (first_range q).0 (first_range q).1 0 (λ _. none))
              k
            ≡ get_elem? xs k
      moved =
          let f = ranges-Rep r in
          move_ranges-cell q.buffer (first_range q).0 (first_range q).1 (second_range q).0
            (second_range q).1 xs (f.0 ∙ r.counted) f.3 f.4

  -- `push_back` appends, growing the buffer exactly when it is full.
  pub push_back-Rep :
      {q : Queue A} {xs : List A} (x : A)
      → Rep q xs
      → Rep (push_back x q) (xs ++ x ∷ [])
        × ((push_back x q).capacity
            ≡ (if length xs == q.capacity then max 8 (q.capacity * 2) else q.capacity))
  unfolding push_back
  push_back-Rep {q} {xs} x r = elim (Bool-cases (q.size == q.capacity)) [
    | inl full ↦ rw full (
      place_back-Rep x (grow-Rep 0 r).0
          (omega (arith, (grow-Rep 0 r).1, r.fits, (grow-Rep 0 r).0.counted, r.counted)),
      ground (arith, (grow-Rep 0 r).1, r.counted),
    )
    | inr room ↦ rw room (place_back-Rep x r (ground (arith, r.fits)), ground (arith, r.counted))
  ]
