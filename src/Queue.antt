-- ===== src/Queue.antt =====
-- corral/detail/Queue.h: the growing circular buffer behind the executor and the channels.
-- Pointers are indices from `buffer_`. The buffer is raw memory: a cell is `none` until an object
-- is constructed in it, and again once that object is destroyed, so that reading or destroying a
-- cell that holds no object is a fault (`none` as a result). Sizes are unbounded numbers.
pub mod Cells
pub mod Rep
pub mod Grow
pub mod Append
pub mod PopTo
pub mod Visit
pub mod Refine
pub mod Whole
mod Tests
use mathlib.Core.List as List
use corral.Base.{
  ℕ, zero, suc, ◌+◌, ◌-◌, ◌*◌, ◌≤◌, ◌<◌, min, max, Bool, true, false, Option, none, some, List, [],
  ◌∷◌, ◌++◌, if◌then◌else◌, ltb, leb, ◌==◌, length, take, drop, update,
}
use Cells.{construct_range, apply_range, move_range, read_range, destroy_range}

pub record Queue (A : Type 0) : Type 0 where
  pub buffer : ℕ → Option A
  pub capacity : ℕ
  pub head : ℕ
  pub tail : ℕ
  pub size : ℕ

module _ {A : Type 0} where
  -- The constructor: `malloc`, and both ends at the start.
  unfoldable pub make : ℕ → Queue A
  make capacity = record { buffer = λ _. none; capacity = capacity; head = 0; tail = 0; size = 0 }

  unfoldable pub empty : Queue A → Bool
  empty q = q.size == 0

  -- A reference to a cell with no object in it is a fault.
  unfoldable pub front : Queue A → Option A
  front q = q.buffer q.head

  -- `if (++p == buffer_ + capacity_) p = buffer_`
  abbrev pub advance : Queue A → ℕ → ℕ
  advance q p = if (p + 1) == q.capacity then 0 else p + 1

  unfoldable pub pop_front : Queue A → Option (Queue A)
  pop_front q = elim (q.buffer q.head) [
    | none ↦ none
    | some _ ↦ some (record q {
      buffer = update q.buffer q.head none;
      head = advance q q.head;
      size = q.size - 1;
    })
  ]

  -- The two ranges, as a start and a number of cells.
  unfoldable pub first_range : Queue A → ℕ × ℕ
  unfolding empty
  first_range q =
      if empty q
      then (0, 0)
      else if ltb q.head q.tail
      then (q.head, q.tail - q.head)
      else (q.head, q.capacity - q.head)

  unfoldable pub second_range : Queue A → ℕ × ℕ
  unfolding empty
  second_range q = if empty q then (0, 0) else if ltb q.head q.tail then (0, 0) else (0, q.tail)

  -- Moves the elements into a new buffer, in order, and frees the old one.
  unfoldable pub grow : ℕ → Queue A → Queue A
  unfolding first_range second_range make
  grow new_capacity q =
      let (s1, n1) = first_range q in
      let (s2, n2) = second_range q in
      let fresh : Queue A = make (max (max new_capacity 8) (q.capacity * 2)) in
      record fresh {
        buffer = move_range q.buffer s2 n2 n1 (move_range q.buffer s1 n1 0 fresh.buffer);
        tail = n1 + n2;
        size = q.size;
      }

  abbrev pub place_back : A → Queue A → Queue A
  place_back x q = record q {
    buffer = update q.buffer q.tail (some x);
    tail = advance q q.tail;
    size = q.size + 1;
  }

  unfoldable pub push_back : A → Queue A → Queue A
  unfolding grow
  push_back x q = place_back x (if q.size == q.capacity then grow 0 q else q)

  -- `if (tail_ == buffer_ + capacity_) tail_ = buffer_`, at the end of `append`.
  abbrev wrap_tail : Queue A → Queue A
  wrap_tail q = record q { tail = if q.tail == q.capacity then 0 else q.tail }

  -- `append` once there is room for all of `xs`.
  unfoldable pub append_room : List A → Queue A → Queue A
  append_room xs q =
      if leb (q.tail + length xs) q.capacity
      then wrap_tail (record q {
        buffer = construct_range xs q.tail q.buffer;
        tail = q.tail + length xs;
        size = q.size + length xs;
      })
      else let bound = q.capacity - q.tail in
        wrap_tail (record q {
          buffer =
              construct_range (drop bound xs) 0 (construct_range (take bound xs) q.tail q.buffer);
          tail = length (drop bound xs);
          size = q.size + length xs;
        })

  unfoldable pub append : List A → Queue A → Queue A
  unfolding grow append_room
  append xs q =
      append_room xs
        (if ltb q.capacity (q.size + length xs) then grow (q.size + length xs) q else q)

  -- What the first half of `pop_front_to` leaves behind.
  abbrev pub pop_first : ℕ → Queue A → Queue A
  pop_first n1 q = record q {
    buffer = destroy_range q.head n1 q.buffer;
    head = if (q.head + n1) == q.capacity then 0 else q.head + n1;
    size = q.size - n1;
  }

  abbrev pub pop_second : ℕ → Queue A → Queue A
  pop_second n2 q =
      if n2 == 0
      then q
      else record q { buffer = destroy_range 0 n2 q.buffer; head = n2; size = q.size - n2 }

  -- The elements written to `dst`, and the queue without them. `none` is a failed assertion, or a
  -- move out of a cell with no object.
  unfoldable pub pop_front_to : ℕ → Queue A → Option (List A × Queue A)
  pop_front_to n q =
      let n1 = min n (q.capacity - q.head) in
      let n2 = min (n - n1) q.tail in
      if leb n q.size
      then elim (read_range q.head n1 q.buffer) [
        | none ↦ none
        | some xs ↦ elim (read_range 0 n2 (pop_first n1 q).buffer) [
          | none ↦ none
          | some ys ↦ some (xs ++ ys, pop_second n2 (pop_first n1 q))
        ]
      ]
      else none

  -- `fn` runs on each element of the first range and then of the second, and may change it.
  unfoldable pub for_each_item : (A → A) → Queue A → Queue A
  unfolding first_range second_range
  for_each_item fn q =
      let (s1, n1) = first_range q in
      let (s2, n2) = second_range q in
      record q { buffer = apply_range fn s2 n2 (apply_range fn s1 n1 q.buffer) }

  -- The destructor: the elements destroyed, in order, and what is left in the buffer when it is freed.
  unfoldable pub destroy : Queue A → Option (List A × (ℕ → Option A))
  unfolding first_range second_range
  destroy q =
      let (s1, n1) = first_range q in
      let (s2, n2) = second_range q in
      elim (read_range s1 n1 q.buffer) [
        | none ↦ none
        | some xs ↦ elim (read_range s2 n2 (destroy_range s1 n1 q.buffer)) [
          | none ↦ none
          | some ys ↦ some (xs ++ ys, destroy_range s2 n2 (destroy_range s1 n1 q.buffer))
        ]
      ]

  -- The move constructor: the new queue, and the one moved from, whose buffer is null.
  abbrev pub move_from : Queue A → Queue A × Queue A
  move_from q = (q, make 0)

  -- The assignment, by swapping with a parameter that is then destroyed: the queue, and what of the old
  -- one was destroyed.
  unfoldable pub assign : Queue A → Queue A → Option (Queue A × List A × (ℕ → Option A))
  unfolding destroy
  assign rhs q = elim (destroy q) [ none ↦ none | some (xs, m) ↦ some (rhs, xs, m) ]
