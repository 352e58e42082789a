-- ===== src/Queue/Cells.antt =====
-- Ranges of cells: std::uninitialized_copy, std::uninitialized_move (`moveRange`), std::move out of
-- a range, and std::destroy, each with what it leaves in every cell.
use corral.Base.{
  map, ℕ, zero, suc, ◌+◌, ◌-◌, ◌<◌, ◌≡◌, refl, ap, ◌&&◌, Option, none, some, List, [], ◌∷◌,
  if◌then◌else◌, ltb, leb, length, get_elem?, update, arith,
}

module _ {A : Type 0} where
  -- Copies of `xs` from cell `d` on.
  unfoldable pub construct_range : List A → ℕ → (ℕ → Option A) → ℕ → Option A
  construct_range [] d m = m
  construct_range (x ∷ xs) d m = construct_range xs (d + 1) (update m d (some x))

  -- The `n` cells of `src` from `s` on, moved to the cells of `m` from `d` on.
  unfoldable pub move_range : (ℕ → Option A) → ℕ → ℕ → ℕ → (ℕ → Option A) → ℕ → Option A
  move_range src s zero d m = m
  move_range src s (suc n) d m = move_range src (s + 1) n (d + 1) (update m d (src s))

  unfoldable pub read_range : ℕ → ℕ → (ℕ → Option A) → Option (List A)
  read_range s zero m = some []
  read_range s (suc n) m = elim (m s) [
    | none ↦ none
    | some x ↦ elim (read_range (s + 1) n m) [ none ↦ none | some xs ↦ some (x ∷ xs) ]
  ]

  unfoldable pub destroy_range : ℕ → ℕ → (ℕ → Option A) → ℕ → Option A
  destroy_range s zero m = m
  destroy_range s (suc n) m = destroy_range (s + 1) n (update m s none)

  abbrev pub map_cell : (A → A) → Option A → Option A
  map_cell f none = none
  map_cell f (some x) = some (f x)

  unfoldable pub apply_range : (A → A) → ℕ → ℕ → (ℕ → Option A) → ℕ → Option A
  apply_range f s zero m = m
  apply_range f s (suc n) m = apply_range f (s + 1) n (update m s (map_cell f (m s)))

  pub apply_range-cell :
      (f : A → A) (s n : ℕ) (m : ℕ → Option A) (j : ℕ)
      → apply_range f s n m j ≡ (if leb s j && ltb j (s + n) then map_cell f (m j) else m j)
  unfolding apply_range
  apply_range-cell f s zero m j = ground arith
  apply_range-cell f s (suc n) m j = ground (
    arith,
    apply_range-cell f (s + 1) n (update m s (map_cell f (m s))) j,
    λ (h : j ≡ s). ap (λ k. map_cell f (m k)) h,
  )

  pub get_elem?-map :
      (f : A → A) (xs : List A) (i : ℕ) → get_elem? (map f xs) i ≡ map_cell f (get_elem? xs i)
  get_elem?-map f [] i = refl
  get_elem?-map f (x ∷ xs) zero = refl
  get_elem?-map f (x ∷ xs) (suc i) = get_elem?-map f xs i

  pub length-map : (f : A → A) (xs : List A) → length (map f xs) ≡ length xs
  length-map f [] = refl
  length-map f (x ∷ xs) = ap suc (length-map f xs)

  pub construct_range-cell :
      (xs : List A) (d : ℕ) (m : ℕ → Option A) (j : ℕ)
      → construct_range xs d m j
        ≡ (if leb d j && ltb j (d + length xs) then get_elem? xs (j - d) else m j)
  unfolding construct_range
  construct_range-cell [] d m j = ground arith
  construct_range-cell (x ∷ xs) d m j = ground (
    arith,
    construct_range-cell xs (d + 1) (update m d (some x)) j,
    λ (h : d < j). shift h,
    λ (h : j ≡ d). here h,
  )
    where
      shift : d < j → get_elem? (x ∷ xs) (j - d) ≡ get_elem? xs (j - (d + 1))
      shift h = let e : j - d ≡ suc (j - (d + 1)) = omega arith in rw e

      here : j ≡ d → get_elem? (x ∷ xs) (j - d) ≡ some x
      here h = let e : j - d ≡ zero = omega arith in rw e

  pub move_range-cell :
      (src : ℕ → Option A) (s n d : ℕ) (m : ℕ → Option A) (j : ℕ)
      → move_range src s n d m j ≡ (if leb d j && ltb j (d + n) then src (s + (j - d)) else m j)
  unfolding move_range
  move_range-cell src s zero d m j = ground arith
  move_range-cell src s (suc n) d m j = ground (
    arith,
    move_range-cell src (s + 1) n (d + 1) (update m d (src s)) j,
    λ (h : d < j). shift h,
    λ (h : j ≡ d). here h,
  )
    where
      shift : d < j → src (s + (j - d)) ≡ src (s + 1 + (j - (d + 1)))
      shift h = ap src (omega arith)

      here : j ≡ d → src (s + (j - d)) ≡ src s
      here h = ap src (omega arith)

  pub destroy_range-cell :
      (s n : ℕ) (m : ℕ → Option A) (j : ℕ)
      → destroy_range s n m j ≡ (if leb s j && ltb j (s + n) then none else m j)
  unfolding destroy_range
  destroy_range-cell s zero m j = ground arith
  destroy_range-cell s (suc n) m j =
      ground (arith, destroy_range-cell (s + 1) n (update m s none) j)

  -- Reading a range that holds `xs` yields `xs`.
  pub read_range-holds :
      (xs : List A) (s : ℕ) (m : ℕ → Option A)
      → ((i : ℕ) → i < length xs → m (s + i) ≡ get_elem? xs i)
      → read_range s (length xs) m ≡ some xs
  unfolding read_range
  read_range-holds [] s m h = refl
  read_range-holds (x ∷ xs) s m h = rw (first, read_range-holds xs (s + 1) m rest)
    where
      first : m s ≡ some x
      first = let e : s + 0 ≡ s = omega arith in rw e at (h 0 (omega arith))

      rest : (i : ℕ) → i < length xs → m (s + 1 + i) ≡ get_elem? xs i
      rest i lt = let e : s + suc i ≡ s + 1 + i = omega arith in rw e at (h (suc i) (omega arith))
