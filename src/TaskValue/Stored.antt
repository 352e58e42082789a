-- ===== src/TaskValue/Stored.antt =====
-- What is stored in a word is got back from it (corral/detail/TaskAwaiter.h).
use Prim.Native.Nat.{bit_and, bit_or}
use corral.Base.{
  ℕ, ◌+◌, ◌*◌, ◌/◌, ◌%◌, ◌^◌, ◌<◌, ◌≡◌, refl, sym, ◌∙◌, ap, Bool, true, false, ◌==◌, ==_iff, none,
  some, update, Bool-cases, inl, inr, arith,
}
use corral.TaskValue.{
  mask, above, top, is_value_ptr, is_inline_value, is_shifted_inline_value, Cells, from_promise,
  from_value, has_promise, take_promise, take_value, destroy,
}
use corral.TaskValue.Words.{kind_lem, rest_lem, top_lem, tag_lem}

-- A word of a kind, with what else it holds.
record Word (x t : ℕ) : Type 0 where
  pub kind : bit_and (bit_or x t) mask ≡ t
  pub rest : bit_and (bit_or x t) above ≡ x

tagged : (x t : ℕ) → x % 4 ≡ 0 → t < 4 → x < 2 ^ 64 → Word x t
tagged x t h l s =
    let e = tag_lem x t h l in
    record {
      kind = ap (λ y. bit_and y mask) e ∙ kind_lem (x + t) ∙ omega (arith, h, l);
      rest =
          ap (λ y. bit_and y above) e
          ∙ rest_lem (x + t) (omega (arith, h, l, s))
          ∙ omega (arith, h, l);
    }

-- The heap is as it was.
abbrev pub Same : Cells → Cells → Type 0
Same cs ds = (k : ℕ) → ds k ≡ cs k

-- A word that holds a value: it is not a promise, the value can be taken once, and the destructor frees what
-- the value takes in the heap.
pub record HoldsValue (fits : Bool) (v : ℕ) (cells : Cells) (bits : ℕ) (now : Cells) : Type 0 where
  pub no_promise : has_promise bits ≡ false
  pub taken : (end : Cells) × (take_value fits bits now ≡ some (v, 1, end)) × Same cells end
  pub once : (end : Cells) → take_value fits 1 end ≡ none
  pub destroyed : ((destroy bits now).0 ≡ none) × Same cells (destroy bits now).1

consumed : (fits : Bool) (end : Cells) → take_value fits 1 end ≡ none
unfolding take_value
consumed fits end = refl

module _ (v : ℕ) (cells : Cells) where
  inline_holds : v % 4 ≡ 0 → v < 2 ^ 64 → HoldsValue true v cells (bit_or v is_inline_value) cells
  unfolding has_promise take_value destroy
  inline_holds h s =
      let w = tagged v 2 h (omega arith) s in
      record {
        no_promise = rw w.kind refl;
        taken = (cells, rw (w.kind, w.rest) refl, λ k. refl);
        once = consumed true;
        destroyed = (ground (arith, w.kind, w.rest), λ k. ground (arith, w.kind, w.rest));
      }

  shifted_holds :
      v < 2 ^ 62
      → HoldsValue true v cells (bit_or (v * 2 ^ 2 % 2 ^ 64) is_shifted_inline_value) cells
  unfolding has_promise take_value destroy
  shifted_holds s =
      let w = tagged (v * 2 ^ 2 % 2 ^ 64) 3 (omega (arith, s)) (omega arith) (omega arith) in
      let back : v * 2 ^ 2 % 2 ^ 64 / 2 ^ 2 ≡ v = omega (arith, s) in
      record {
        no_promise = rw w.kind refl;
        taken = (cells, rw (w.kind, w.rest, back) refl, λ k. refl);
        once = consumed true;
        destroyed = (ground (arith, w.kind, w.rest), λ k. ground (arith, w.kind, w.rest));
      }

  module _ (fits : Bool) (address : ℕ) (free : cells address ≡ none) where
    restored : (k : ℕ) → update (update cells address (some v)) address none k ≡ cells k
    restored k = elim (Bool-cases (k == address)) [
      | inl e ↦ rw e (sym free ∙ ap cells (sym ((==_iff k address).0 e)))
      | inr e ↦ rw e
    ]

    cell_holds :
        address % 4 ≡ 0
        → 0 < address
        → address < 2 ^ 64
        → HoldsValue fits v cells (bit_or address is_value_ptr) (update cells address (some v))
    unfolding has_promise take_value destroy
    cell_holds h z s =
        let w = tagged address 1 h (omega arith) s in
        let used : (address == 0) ≡ false = ground (arith, z) in
        let now = update cells address (some v) in
        let here : (address == address) ≡ true = ground arith in
        record {
          no_promise = rw w.kind refl;
          taken = (
            update (update cells address (some v)) address none,
            rw (w.kind, w.rest, used, here) (ap (λ y. some (v, 1, update now y none)) w.rest),
            restored,
          );
          once = consumed fits;
          destroyed = (
            ground (arith, w.kind, w.rest),
            λ k. ground (arith, w.kind, w.rest, used, restored k),
          );
        }

-- The three ways to store a value.
module _ (v : ℕ) (cells : Cells) (address : ℕ) (free : cells address ≡ none) where
  pub value_round_trip :
      (fits : Bool)
      → v < 2 ^ 64
      → address % 4 ≡ 0
      → 0 < address
      → address < 2 ^ 64
      → HoldsValue fits v cells
          (from_value fits address v cells).0
          (from_value fits address v cells).1
  unfolding from_value
  value_round_trip false s h z u = cell_holds v cells false address free h z u
  value_round_trip true s h z u = elim (Bool-cases (bit_and v mask == 0)) [
    | inl e ↦
        let low : v % 4 ≡ 0 = sym (kind_lem v) ∙ (==_iff (bit_and v mask) 0).0 e in
        rw e (inline_holds v cells low s)
    | inr e ↦ elim (Bool-cases (bit_and v top == 0)) [
      | inl d ↦
          let none_above : v / 2 ^ 62 * 2 ^ 62 ≡ 0 =
            sym (top_lem v s) ∙ (==_iff (bit_and v top) 0).0 d in
          rw (e, d) (shifted_holds v cells (omega (arith, none_above, s)))
      | inr d ↦ rw (e, d) (cell_holds v cells true address free h z u)
    ]
  ]

-- A word that holds a promise: it is taken once, and the destructor destroys it.
record HoldsPromise (p bits : ℕ) (cells : Cells) : Type 0 where
  pub promised : has_promise bits ≡ true
  pub taken : take_promise bits ≡ some (p, 0)
  pub once : take_promise 0 ≡ none
  pub destroyed : destroy bits cells ≡ (some p, cells)

promise_round_trip :
    (p : ℕ) (cells : Cells) → p % 4 ≡ 0 → 0 < p → p < 2 ^ 64 → HoldsPromise p (from_promise p) cells
unfolding from_promise has_promise take_promise destroy
promise_round_trip p cells h z s =
    let w = tagged p 0 h (omega arith) s in
    let used : (p == 0) ≡ false = ground (arith, z) in
    let full : (bit_or p 0 == 0) ≡ false =
      ground (arith, z, tag_lem p 0 h (let e : 0 < 4 = omega arith in e)) in
    record {
      promised = rw w.kind refl;
      taken = rw (full, w.kind, w.rest) refl;
      once = refl;
      destroyed = rw (w.kind, w.rest, used) refl;
    }
