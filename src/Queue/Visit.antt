-- ===== src/Queue/Visit.antt =====
-- `for_each_item` (corral/detail/Queue.h).
use corral.Base.{ℕ, ◌≡◌, List, map, get_elem?-past, arith}
use corral.Queue.{Queue, first_range, second_range, for_each_item}
use corral.Queue.Cells.{apply_range, apply_range-cell, map_cell, get_elem?-map, length-map}
use corral.Queue.Rep.{Rep, index}

module _ {A : Type 0} where
  for_each_item-cell :
      (f : A → A) {q : Queue A} {xs : List A}
      → Rep q xs
      → (k : ℕ) → (for_each_item f q).buffer k ≡ map_cell f (q.buffer k)
  unfolding for_each_item
  for_each_item-cell f {q} {xs} r k = ground (
    arith,
    apply_range-cell f (second_range q).0 (second_range q).1
        (apply_range f (first_range q).0 (first_range q).1 q.buffer) k,
    apply_range-cell f (first_range q).0 (first_range q).1 q.buffer k,
    r.cells k,
    r.outside k,
    r.tail_at,
    r.fits,
    r.head_in,
    r.counted,
    get_elem?-past xs (index q.head q.capacity k),
  )

  -- `for_each_item` runs the function on every element, once each, and leaves their order.
  pub for_each_item-Rep :
      (f : A → A) {q : Queue A} {xs : List A} → Rep q xs → Rep (for_each_item f q) (map f xs)
  unfolding for_each_item
  for_each_item-Rep f {q} {xs} r = record {
    counted = omega (arith, r.counted, length-map f xs);
    fits = r.fits;
    head_in = r.head_in;
    tail_at = r.tail_at;
    cells = λ k h. ground (
      arith,
      for_each_item-cell f r k,
      r.cells k h,
      get_elem?-map f xs (index q.head q.capacity k),
    );
    outside = λ k h. ground (arith, for_each_item-cell f r k, r.outside k h);
  }
