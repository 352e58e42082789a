-- ===== src/Queue/Append.antt =====
-- `append` (corral/detail/Queue.h): a whole range put behind the elements.
use corral.Base.{
  ℕ, ◌+◌, ◌-◌, ◌≤◌, ◌≡◌, ◌&&◌, Bool-cases, inl, inr, true, false, Option, List, ◌++◌, if◌then◌else◌,
  ltb, leb, length, get_elem?, take, drop, length-append, length-take, length-drop,
  get_elem?-append, get_elem?-drop, get_elem?-take, get_elem?-past, arith,
}
use corral.Queue.{Queue, append_room, append}
use corral.Queue.Cells.{construct_range, construct_range-cell}
use corral.Queue.Rep.{Rep, index}
use corral.Queue.Grow.{grow-Rep}

module _ {A : Type 0} where
  append_room-straight :
      {q : Queue A} {xs : List A} (ys : List A)
      → Rep q xs
      → q.size + length ys ≤ q.capacity
      → leb (q.tail + length ys) q.capacity ≡ true
      → Rep (append_room ys q) (xs ++ ys)
  unfolding append_room
  append_room-straight {q} {xs} ys r room fits = rw fits (record {
    counted = omega (arith, length-append xs ys, r.counted);
    fits = room;
    head_in = r.head_in;
    tail_at = ground (arith, r.tail_at, r.head_in);
    cells = λ k h. ground (
      arith,
      construct_range-cell ys q.tail q.buffer k,
      r.cells k h,
      get_elem?-append xs ys (index q.head q.capacity k),
      get_elem?-past ys (index q.head q.capacity k - length xs),
      get_elem?-past xs (index q.head q.capacity k),
    );
    outside = λ k h. ground (arith, construct_range-cell ys q.tail q.buffer k, r.outside k h);
  })

  construct_two-cell :
      (ys : List A) (b t : ℕ) (m : ℕ → Option A) (k : ℕ)
      → b ≤ length ys
      → construct_range (drop b ys) 0 (construct_range (take b ys) t m) k ≡ (
          if ltb k (length ys - b)
          then get_elem? ys (b + k)
          else if leb t k && ltb k (t + b)
          then get_elem? ys (k - t)
          else m k)
  construct_two-cell ys b t m k h = ground (
    arith,
    construct_range-cell (drop b ys) 0 (construct_range (take b ys) t m) k,
    construct_range-cell (take b ys) t m k,
    length-drop b ys,
    length-take b ys,
    get_elem?-drop b ys (k - 0),
    get_elem?-take b ys (k - t),
  )

  append_room-split :
      {q : Queue A} {xs : List A} (ys : List A)
      → Rep q xs
      → q.size + length ys ≤ q.capacity
      → leb (q.tail + length ys) q.capacity ≡ false
      → Rep (append_room ys q) (xs ++ ys)
  unfolding append_room
  append_room-split {q} {xs} ys r room split = rw split (record {
    counted = omega (arith, length-append xs ys, r.counted);
    fits = room;
    head_in = r.head_in;
    tail_at = ground (arith, r.tail_at, r.head_in, length-drop (q.capacity - q.tail) ys);
    cells = λ k h. ground (
      arith,
      construct_two-cell ys (q.capacity - q.tail) q.tail q.buffer k,
      r.cells k h,
      get_elem?-append xs ys (index q.head q.capacity k),
      get_elem?-past ys (index q.head q.capacity k - length xs),
      get_elem?-past xs (index q.head q.capacity k),
    );
    outside = λ k h.
        ground
          (arith, construct_two-cell ys (q.capacity - q.tail) q.tail q.buffer k, r.outside k h);
  })

  append_room-Rep :
      {q : Queue A} {xs : List A} (ys : List A)
      → Rep q xs
      → q.size + length ys ≤ q.capacity
      → Rep (append_room ys q) (xs ++ ys)
  append_room-Rep {q} ys r room = elim (Bool-cases (leb (q.tail + length ys) q.capacity)) [
    | inl fits ↦ append_room-straight ys r room fits
    | inr split ↦ append_room-split ys r room split
  ]

  -- `append` puts the whole range behind the elements, growing the buffer when they do not fit.
  pub append-Rep :
      {q : Queue A} {xs : List A} (ys : List A) → Rep q xs → Rep (append ys q) (xs ++ ys)
  unfolding append
  append-Rep {q} {xs} ys r = elim (Bool-cases (ltb q.capacity (q.size + length ys))) [
    | inl over ↦
        let g = grow-Rep (q.size + length ys) r in
        rw over (append_room-Rep ys g.0 (omega (arith, g.1, g.0.counted, r.counted)))
    | inr fits ↦ rw fits (append_room-Rep ys r (ground arith))
  ]

  -- A range that fits leaves the buffer where it is.
  pub append-capacity :
      (q : Queue A) (ys : List A)
      → q.size + length ys ≤ q.capacity
      → (append ys q).capacity ≡ q.capacity
  unfolding append
  append-capacity q ys h = ground arith
