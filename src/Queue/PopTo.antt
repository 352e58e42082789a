-- ===== src/Queue/PopTo.antt =====
-- `pop_front_to` (corral/detail/Queue.h): several elements handed over at once.
use corral.Base.{
  ℕ, ◌+◌, ◌-◌, ◌≤◌, ◌<◌, min, ◌≡◌, ◌∙◌, ap, subst, ◌&&◌, ==_iff, Bool-cases, inl, inr, Option, none,
  some, List, if◌then◌else◌, ltb, leb, ◌==◌, length, get_elem?, take, drop, length-take,
  length-drop, get_elem?-drop, get_elem?-take, get_elem?-past, ◌⊎◌, drop-drop, take-append-take,
  arith,
}
use corral.Queue.{Queue, pop_first, pop_second, pop_front_to}
use corral.Queue.Cells.{read_range, read_range-holds, destroy_range-cell}
use corral.Queue.Rep.{Rep, index}

module _ {A : Type 0} where
  -- What a run over the buffer reads is the elements from a position on.
  pub read_part :
      (xs : List A) (d n s : ℕ) (m : ℕ → Option A)
      → d + n ≤ length xs
      → ((i : ℕ) → i < n → m (s + i) ≡ get_elem? xs (d + i))
      → read_range s n m ≡ some (take n (drop d xs))
  read_part xs d n s m h same =
      let e : length (take n (drop d xs)) ≡ n =
        omega (arith, length-take n (drop d xs), length-drop d xs) in
      subst (λ k. read_range s k m ≡ some (take n (drop d xs))) e
        (read_range-holds (take n (drop d xs)) s m
          λ i lt. ground (arith, same i, get_elem?-take n (drop d xs) i, get_elem?-drop d xs i, e))

  -- The second half drops from the start of the buffer.
  pop_second-Rep :
      {q : Queue A} {zs : List A} (n2 : ℕ)
      → Rep q zs
      → (n2 ≡ 0) ⊎ (q.head ≡ 0)
      → n2 ≤ q.size
      → n2 ≤ q.capacity - 1
      → Rep (pop_second n2 q) (drop n2 zs)
  pop_second-Rep {q} {zs} n2 r start small inside = elim (Bool-cases (n2 == 0)) [
    | inl skip ↦ rw skip (rw ((==_iff n2 0).0 skip) r)
    | inr more ↦ rw more (record {
      counted = omega (arith, r.counted, length-drop n2 zs);
      fits = omega (arith, r.fits);
      head_in = inside;
      tail_at = ground (arith, r.fits, r.tail_at);
      cells = λ k h. ground (
        arith,
        destroy_range-cell 0 n2 q.buffer k,
        r.cells k h,
        get_elem?-drop n2 zs (index n2 q.capacity k),
        get_elem?-past (drop n2 zs) (index n2 q.capacity k),
        length-drop n2 zs,
        r.counted,
        r.fits,
      );
      outside = λ k h. ground (arith, destroy_range-cell 0 n2 q.buffer k, r.outside k h);
    })
  ]

  module _ {q : Queue A} {xs : List A} (n : ℕ) (r : Rep q xs) (small : n ≤ q.size) where
    abbrev part1 : ℕ
    part1 = min n (q.capacity - q.head)

    abbrev part2 : ℕ
    part2 = min (n - part1) q.tail

    pop_first-cell :
        (k : ℕ)
        → (pop_first part1 q).buffer k
          ≡ (if leb q.head k && ltb k (q.head + part1) then none else q.buffer k)
    pop_first-cell k = destroy_range-cell q.head part1 q.buffer k

    pop_first-Rep : Rep (pop_first part1 q) (drop part1 xs)
    pop_first-Rep = record {
      counted = omega (arith, r.counted, length-drop part1 xs);
      fits = omega (arith, r.fits);
      head_in = ground (arith, r.head_in, r.fits);
      tail_at = ground (arith, r.head_in, r.fits, r.tail_at);
      cells = λ k h. ground (
        arith,
        pop_first-cell k,
        r.cells k h,
        get_elem?-drop part1 xs (index (pop_first part1 q).head q.capacity k),
        get_elem?-past (drop part1 xs) (index (pop_first part1 q).head q.capacity k),
        length-drop part1 xs,
        r.counted,
        r.fits,
        r.head_in,
      );
      outside = λ k h. ground (arith, pop_first-cell k, r.outside k h);
    }

    parts : (part1 + part2 ≡ n) × ((part2 ≡ 0) ⊎ ((pop_first part1 q).head ≡ 0))
    parts =
        (ground (arith, r.tail_at, r.head_in, r.fits), ground (arith, r.tail_at, r.head_in, r.fits))

    part2-le : part2 ≤ q.capacity - 1
    part2-le = ground (arith, r.tail_at, r.head_in, r.fits)

    part2-size : part2 ≤ q.size - part1
    part2-size = omega (arith, parts.0)

    rest-Rep : Rep (pop_second part2 (pop_first part1 q)) (drop part2 (drop part1 xs))
    rest-Rep = pop_second-Rep part2 pop_first-Rep parts.1 part2-size part2-le

    read_first : read_range q.head part1 q.buffer ≡ some (take part1 xs)
    read_first =
        read_part xs 0 part1 q.head q.buffer (omega (arith, r.counted))
          (λ i h. ground (arith, r.cells (q.head + i), r.fits))

    read_second : read_range 0 part2 (pop_first part1 q).buffer ≡ some (take part2 (drop part1 xs))
    read_second =
        read_part xs part1 part2 0 (pop_first part1 q).buffer (omega (arith, r.counted, parts.0))
          (λ i h.
            ground (arith, pop_first-cell (0 + i), r.cells (0 + i), parts, part2-le, part2-size))

    -- With at most `size` elements asked for, `pop_front_to` hands over the oldest in order and
    -- keeps the others.
    pub pop_front_to-Rep :
        (q' : Queue A) × (pop_front_to n q ≡ some (take n xs, q'))
        × Rep q' (drop n xs)
        × (q'.capacity ≡ q.capacity)
    unfolding pop_front_to
    pop_front_to-Rep = (
      pop_second part2 (pop_first part1 q),
      ground (
        arith,
        read_first,
        read_second,
        take-append-take part1 part2 xs ∙ ap (λ k. take k xs) parts.0,
      ),
      subst (Rep (pop_second part2 (pop_first part1 q)))
          (drop-drop part1 part2 xs ∙ ap (λ k. drop k xs) parts.0) rest-Rep,
      ground arith,
    )
