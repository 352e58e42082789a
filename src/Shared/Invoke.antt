-- ===== src/Shared/Invoke.antt =====
-- What the completion of a shared operation (`State::invoke` of corral/Shared.h) does to its parents.
use corral.Base.{
  ℕ, zero, suc, ◌≤◌, ◌≡◌, refl, sym, subst, ◌∙◌, ap, Bool, true, not, ◌||◌, ◌==◌, List, [], ◌∷◌,
  ◌++◌, append-nil, append_assoc, ap₂, length, length-remove, has, remove, remove-absent,
  has-append, has-append_right, if◌then◌else◌, Bool-cases, inl, inr, arith,
}
use corral.Shared.{
  State, is_cancelling, settle_cancel, drop_parent, drop_each, wake, invoke, incomplete, cancelled,
}

-- Nothing is called on the operation, and its result is what it was.
pub record SameOperation {A : Type 0} (s t : State A) : Type 0 where
  pub result : t.result ≡ s.result
  pub starts : t.starts ≡ s.starts
  pub cancels : t.cancels ≡ s.cancels

-- Being woken, woken, or no longer attached.
abbrev pub accounted : {A : Type 0} → ℕ → State A → Bool
accounted j s = has j s.waking || has j s.woken || not (s.attached j)

has-remove_or : (i j : ℕ) (xs : List ℕ) → has j xs ≡ true → (has j (remove i xs) || j == i) ≡ true
unfolding has remove
has-remove_or i j [] h = absurd (ground arith)
has-remove_or i j (x ∷ xs) h = ground (arith, has-remove_or i j xs)

length-remove_le : (i : ℕ) (xs : List ℕ) → length (remove i xs) ≤ length xs
length-remove_le i xs = elim (Bool-cases (has i xs)) [
  | inl e ↦ omega (arith, length-remove i xs e)
  | inr e ↦ rw (remove-absent i xs e) (omega arith)
]

module _ {A : Type 0} where
  drop_parent-accounted :
      (i j : ℕ) (s : State A) → accounted j s ≡ true → accounted j (drop_parent i s) ≡ true
  unfolding drop_parent
  drop_parent-accounted i j s h = ground (arith, has-remove_or i j s.waking)

  drop_each-accounted :
      (is : List ℕ) (j : ℕ) (s : State A)
      → accounted j s ≡ true
      → accounted j (drop_each is s) ≡ true
  unfolding drop_each
  drop_each-accounted [] j s h = h
  drop_each-accounted (i ∷ is) j s h =
      drop_each-accounted is j (drop_parent i s) (drop_parent-accounted i j s h)

  drop_each-same : (is : List ℕ) (s : State A) → SameOperation s (drop_each is s)
  unfolding drop_each
  drop_each-same [] s = record { result = refl; starts = refl; cancels = refl }
  drop_each-same (i ∷ is) s =
      let h = drop_each-same is (drop_parent i s) in
      record { result = h.result; starts = h.starts; cancels = h.cancels }

  drop_each-parents : (is : List ℕ) (s : State A) → s.parents ≡ [] → (drop_each is s).parents ≡ []
  unfolding drop_each remove
  drop_each-parents [] s h = h
  drop_each-parents (i ∷ is) s h = drop_each-parents is (drop_parent i s) (ap (remove i) h)

  drop_each-waking : (is : List ℕ) (s : State A) → length (drop_each is s).waking ≤ length s.waking
  unfolding drop_each
  drop_each-waking [] s = omega arith
  drop_each-waking (i ∷ is) s =
      omega (arith, drop_each-waking is (drop_parent i s), length-remove_le i s.waking)

-- Nobody waits after the loop, whatever the parents resumed have cancelled.
pub record Woken {A : Type 0} (s t : State A) : Type 0 where
  pub same : SameOperation s t
  pub none_waits : t.parents ≡ []
  pub none_waking : t.waking ≡ []

module _ {A : Type 0} (on_wake : ℕ → List ℕ) where
  -- One round of the loop, up to the next.
  abbrev round : ℕ → List ℕ → State A → State A
  round i is s = drop_each (on_wake i) (record s { waking = is; woken = s.woken ++ i ∷ [] })

  wake-Woken :
      (n : ℕ) (is : List ℕ) (s : State A)
      → length is ≤ n
      → s.waking ≡ is
      → s.parents ≡ []
      → Woken s (wake on_wake n is s)
  unfolding wake
  wake-Woken zero [] s h w p = record {
    same = record { result = refl; starts = refl; cancels = refl };
    none_waits = p;
    none_waking = w;
  }
  wake-Woken zero (i ∷ is) s h w p = absurd (omega arith)
  wake-Woken (suc n) [] s h w p = record {
    same = record { result = refl; starts = refl; cancels = refl };
    none_waits = p;
    none_waking = w;
  }
  wake-Woken (suc n) (i ∷ is) s h w p =
      let q = record s { waking = is; woken = s.woken ++ i ∷ [] } in
      let t = round i is s in
      let same = drop_each-same (on_wake i) q in
      let v =
        wake-Woken n t.waking t (omega (arith, drop_each-waking (on_wake i) q)) refl
          (drop_each-parents (on_wake i) q p) in
      record {
        same = record {
          result = v.same.result ∙ same.result;
          starts = v.same.starts ∙ same.starts;
          cancels = v.same.cancels ∙ same.cancels;
        };
        none_waits = v.none_waits;
        none_waking = v.none_waking;
      }

  round-accounted :
      (i j : ℕ) (is : List ℕ) (s : State A)
      → s.waking ≡ i ∷ is
      → accounted j s ≡ true
      → accounted j (round i is s) ≡ true
  unfolding has
  round-accounted i j is s w h =
      drop_each-accounted (on_wake i) j (record s { waking = is; woken = s.woken ++ i ∷ [] })
        (ground
          (arith, ap (has j) w, has-append j s.woken (i ∷ []), has-append_right j s.woken (i ∷ [])))

  wake-accounted :
      (n : ℕ) (is : List ℕ) (j : ℕ) (s : State A)
      → s.waking ≡ is
      → accounted j s ≡ true
      → accounted j (wake on_wake n is s) ≡ true
  unfolding wake
  wake-accounted zero is j s w h = h
  wake-accounted (suc n) [] j s w h = h
  wake-accounted (suc n) (i ∷ is) j s w h =
      let t = round i is s in wake-accounted n t.waking j t refl (round-accounted i j is s w h)

  wake-order :
      ((i : ℕ) → on_wake i ≡ [])
      → (n : ℕ) (is : List ℕ) (s : State A) → length is ≤ n
      → (wake on_wake n is s).woken ≡ s.woken ++ is
  unfolding wake drop_each
  wake-order quiet zero [] s h = sym (append-nil s.woken)
  wake-order quiet zero (i ∷ is) s h = absurd (omega arith)
  wake-order quiet (suc n) [] s h = sym (append-nil s.woken)
  wake-order quiet (suc n) (i ∷ is) s h =
      let q = record s { waking = is; woken = s.woken ++ i ∷ [] } in
      subst
        (λ (cs : List ℕ).
          (let t = drop_each cs q in wake on_wake n t.waking t).woken ≡ s.woken ++ i ∷ is)
        (sym (quiet i)) (wake-order quiet n is q (omega arith) ∙ append_assoc s.woken (i ∷ []) is)

  pub invoke-Woken :
      (must : Bool) (s : State A) → Woken (settle_cancel must s) (invoke on_wake must s)
  unfolding invoke
  invoke-Woken must s =
      let t = settle_cancel must s in
      let v =
        wake-Woken (length t.parents) t.parents (record t { waking = t.parents; parents = [] })
          (omega arith) refl refl in
      record {
        same = record { result = v.same.result; starts = v.same.starts; cancels = v.same.cancels };
        none_waits = v.none_waits;
        none_waking = v.none_waking;
      }

  settle_cancel-keeps :
      (must : Bool) (s : State A)
      → let t = settle_cancel must s in
        (t.parents ≡ s.parents)
        × (t.starts ≡ s.starts)
        × (t.cancels ≡ s.cancels)
        × (t.woken ≡ s.woken)
  settle_cancel-keeps must s = ground arith

  -- When a shared operation completes, whatever the parents that it resumes cancel, each parent that
  -- waited has been resumed or is detached by its cancellation, none is left waiting, the operation
  -- is neither started nor cancelled again, and a cancellation under way is settled by its answer.
  pub invoke-serves :
      (must : Bool) (s : State A) (j : ℕ)
      → has j s.parents ≡ true
      → let t = invoke on_wake must s in
        ((has j t.woken || not (t.attached j)) ≡ true)
        × (t.parents ≡ [])
        × (t.starts ≡ s.starts)
        × (t.cancels ≡ s.cancels)
        × (t.result ≡ (
            if is_cancelling s.result then (if must then incomplete else cancelled) else s.result))
  unfolding invoke has
  invoke-serves must s j h =
      let v = invoke-Woken must s in
      let k = settle_cancel-keeps must s in
      let t = settle_cancel must s in
      let a =
        wake-accounted (length t.parents) t.parents j
          (record t { waking = t.parents; parents = [] }) refl (ground (arith, ap (has j) k.0)) in
      (
        ground (arith, a, ap (has j) v.none_waking),
        v.none_waits,
        v.same.starts ∙ k.1,
        v.same.cancels ∙ k.2,
        ground (arith, v.same.result),
      )

  -- Parents that cancel nothing are all resumed, in the order in which they came.
  pub invoke-order :
      ((i : ℕ) → on_wake i ≡ [])
      → (must : Bool) (s : State A) → (invoke on_wake must s).woken ≡ s.woken ++ s.parents
  unfolding invoke
  invoke-order quiet must s =
      let t = settle_cancel must s in
      let k = settle_cancel-keeps must s in
      wake-order quiet (length t.parents) t.parents (record t { waking = t.parents; parents = [] })
        (omega arith)
      ∙ ap₂ ◌++◌ k.3 k.0
