-- ===== src/IntrusivePtr.antt =====
-- corral/detail/IntrusivePtr.h: pointers to objects that count them. An object is a number, which
-- no other object gets later, and a pointer is its index among those made so far; one that has been
-- destroyed stands as a null pointer.
pub mod Counts
mod Tests
use corral.Base.{
  ℕ, zero, suc, ◌+◌, ◌-◌, Bool, true, false, Option, none, some, List, [], ◌∷◌, ◌++◌, if◌then◌else◌,
  ◌==◌, update, get_elem?,
}

-- `refCount_` of each object, the objects that have been deleted, and `ptr_` of each pointer.
pub record Store : Type 0 where
  pub ref_count : ℕ → ℕ
  pub deleted : List ℕ
  pub ptrs : List (Option ℕ)

-- `ptr_` of a pointer.
abbrev pub pointee : ℕ → Store → Option ℕ
pointee i s = elim (get_elem? s.ptrs i) [ none ↦ none | some p ↦ p ]

unfoldable pub replace : ℕ → Option ℕ → List (Option ℕ) → List (Option ℕ)
replace i p [] = []
replace zero p (q ∷ qs) = p ∷ qs
replace (suc i) p (q ∷ qs) = q ∷ replace i p qs

abbrev pub point : ℕ → Option ℕ → Store → Store
point i p s = record s { ptrs = replace i p s.ptrs }

abbrev pub ref : Option ℕ → Store → Store
ref none s = s
ref (some o) s = record s { ref_count = update s.ref_count o (s.ref_count o + 1) }

abbrev pub deref : Option ℕ → Store → Store
deref none s = s
deref (some o) s =
    let n = s.ref_count o - 1 in
    record s {
      ref_count = update s.ref_count o n;
      deleted = if n == 0 then o ∷ s.deleted else s.deleted;
    }

-- A new pointer.
abbrev pub hold : Option ℕ → Store → Store
hold p s = record s { ptrs = s.ptrs ++ p ∷ [] }

-- The constructors, from a plain pointer, by copying and by moving.
abbrev pub adopt : Option ℕ → Store → Store
adopt p s = hold p (ref p s)

abbrev pub copy : ℕ → Store → Store
copy i s = adopt (pointee i s) s

abbrev pub move : ℕ → Store → Store
move i s = hold (pointee i s) (point i none s)

-- `operator=`: the argument, which holds `p`, is swapped with the pointer and then destroyed.
abbrev pub assign : ℕ → Option ℕ → Store → Store
assign i p s = deref (pointee i s) (point i p s)

-- The argument is made by copying, or by moving.
abbrev pub assign_copy : ℕ → ℕ → Store → Store
assign_copy i j s = assign i (pointee j s) (ref (pointee j s) s)

abbrev pub assign_move : ℕ → ℕ → Store → Store
assign_move i j s = assign i (pointee j s) (point j none s)

-- The destructor.
abbrev pub destroy : ℕ → Store → Store
destroy i s = deref (pointee i s) (point i none s)

abbrev pub empty_store : Store
empty_store = record { ref_count = λ _. 0; deleted = []; ptrs = [] }
