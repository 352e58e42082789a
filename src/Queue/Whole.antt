-- ===== src/Queue/Whole.antt =====
-- The destruction, the move and the assignment of a whole queue (corral/detail/Queue.h).
use corral.Base.{
  ℕ, ◌+◌, ◌≡◌, ◌∙◌, refl, ap, ◌&&◌, Option, none, some, List, [], ◌∷◌, ◌++◌, if◌then◌else◌, ltb,
  leb, length, take, drop, take-append-take, get_elem?-past, arith,
}
use corral.Queue.{Queue, first_range, second_range, destroy, move_from, assign}
use corral.Queue.Cells.{read_range, destroy_range, destroy_range-cell}
use corral.Queue.PopTo.{read_part}
use corral.Queue.Rep.{Rep, index, make-Rep}

module _ {A : Type 0} {q : Queue A} {xs : List A} (r : Rep q xs) where
  ranges_size : (first_range q).1 + (second_range q).1 ≡ q.size
  unfolding first_range second_range
  ranges_size = ground (arith, r.tail_at, r.head_in, r.fits)

  read_first :
      read_range (first_range q).0 (first_range q).1 q.buffer ≡ some (take (first_range q).1 xs)
  unfolding first_range
  read_first =
      read_part xs 0 (first_range q).1 (first_range q).0 q.buffer
        (omega (arith, r.counted, ranges_size))
        (λ i h. ground (arith, r.cells (q.head + i), r.fits, r.tail_at, r.head_in))

  left_cell :
      (k : ℕ)
      → destroy_range (first_range q).0 (first_range q).1 q.buffer k ≡ (
          if leb (first_range q).0 k && ltb k ((first_range q).0 + (first_range q).1)
          then none
          else q.buffer k)
  left_cell k = destroy_range-cell (first_range q).0 (first_range q).1 q.buffer k

  read_second :
      read_range
        (second_range q).0
        (second_range q).1
        (destroy_range (first_range q).0 (first_range q).1 q.buffer)
      ≡ some (take (second_range q).1 (drop (first_range q).1 xs))
  unfolding first_range second_range
  read_second =
      read_part xs (first_range q).1 (second_range q).1 (second_range q).0
        (destroy_range (first_range q).0 (first_range q).1 q.buffer)
        (omega (arith, r.counted, ranges_size))
        (λ i h. ground (arith, left_cell (0 + i), r.cells (0 + i), r.fits, r.tail_at, r.head_in))

  nothing_left :
      (k : ℕ)
      → destroy_range
          (second_range q).0
          (second_range q).1
          (destroy_range (first_range q).0 (first_range q).1 q.buffer)
          k
        ≡ none
  unfolding first_range second_range
  nothing_left k = ground (
    arith,
    destroy_range-cell (second_range q).0 (second_range q).1
        (destroy_range (first_range q).0 (first_range q).1 q.buffer) k,
    left_cell k,
    r.cells k,
    r.outside k,
    r.tail_at,
    r.fits,
    r.head_in,
    r.counted,
    get_elem?-past xs (index q.head q.capacity k),
  )

  take_whole : (ys : List A) → take (length ys) ys ≡ ys
  take_whole [] = refl
  take_whole (y ∷ ys) = ap (◌∷◌ y) (take_whole ys)

  all_read : take (first_range q).1 xs ++ take (second_range q).1 (drop (first_range q).1 xs) ≡ xs
  all_read =
      take-append-take (first_range q).1 (second_range q).1 xs
      ∙ ap (λ n. take n xs) (ranges_size ∙ r.counted)
      ∙ take_whole xs

  -- Destroying a queue destroys each of its elements once, oldest first, and no cell without an object;
  -- and no object is left in the buffer that is freed.
  pub destroy_lem : (m : ℕ → Option A) × (destroy q ≡ some (xs, m)) × ((k : ℕ) → m k ≡ none)
  unfolding destroy
  destroy_lem = (
    destroy_range (second_range q).0 (second_range q).1
        (destroy_range (first_range q).0 (first_range q).1 q.buffer),
    ground (arith, read_first, read_second, all_read),
    nothing_left,
  )

-- Assigning a queue destroys the elements of the one assigned to, each once and oldest first, which then
-- is the other one as it was; and what that one was moved from is an empty queue.
pub assign_lem :
    {A : Type 0} {q rhs : Queue A} {xs : List A}
    → Rep q xs
    → (m : ℕ → Option A) × (assign (move_from rhs).0 q ≡ some (rhs, xs, m))
      × ((k : ℕ) → m k ≡ none)
      × Rep (move_from rhs).1 []
unfolding assign
assign_lem r =
    let (m, e, none_left) = destroy_lem r in (m, rw (assign, e) refl, none_left, make-Rep 0)
