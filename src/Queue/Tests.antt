-- ===== src/Queue/Tests.antt =====
-- Runs of corral/detail/Queue.h at concrete queues, and instances of its theorems.
use corral.Base.{
  ℕ, ◌*◌, ◌≡◌, refl, Option, none, some, List, [], ◌∷◌, arith, max, if◌then◌else◌, ◌==◌,
}
use corral.Queue.{Queue, destroy, assign, make, push_back, pop_front_to, append, front, grow}
use corral.Queue.Rep.{Rep, make-Rep}
use corral.Queue.Grow.{push_back-Rep}
use corral.Queue.Append.{append-Rep}
use corral.Queue.PopTo.{pop_front_to-Rep}
use corral.Queue.Whole.{destroy_lem, assign_lem}
use corral.Queue.Refine.{Op, push, pop, extend, pop_to, Agree, run, run_list, run_refines}

abbrev three : Queue ℕ
three = push_back 7 (push_back 6 (push_back 5 (make 3)))

abbrev script : List (Op ℕ)
script = push 1 ∷ extend (2 ∷ 3 ∷ []) ∷ pop ∷ push 4 ∷ pop ∷ extend (5 ∷ 6 ∷ []) ∷ pop_to 3 ∷ []

three-Rep : Rep three (5 ∷ 6 ∷ 7 ∷ [])
three-Rep = (push_back-Rep 7 (push_back-Rep 6 (push_back-Rep 5 (make-Rep 3)).0).0).0

front-three : front three ≡ some 5
unfolding front push_back make
front-three = refl

-- The fourth element makes the buffer of three grow to eight.
grows : (push_back 8 three).capacity ≡ 8
unfolding push_back make grow
grows = refl

run-script : run_list script [] ≡ some (1 ∷ 2 ∷ 3 ∷ 4 ∷ 5 ∷ [], 6 ∷ [])
run-script = refl

push_back-Rep_run :
    Rep (push_back 8 three) (5 ∷ 6 ∷ 7 ∷ 8 ∷ [])
    × ((push_back 8 three).capacity
        ≡ (if 3 == three.capacity then max 8 (three.capacity * 2) else three.capacity))
push_back-Rep_run = push_back-Rep 8 three-Rep

append-Rep_run : Rep (append (8 ∷ 9 ∷ []) three) (5 ∷ 6 ∷ 7 ∷ 8 ∷ 9 ∷ [])
append-Rep_run = append-Rep (8 ∷ 9 ∷ []) three-Rep

pop_front_to-Rep_run :
    (q' : Queue ℕ) × (pop_front_to 2 three ≡ some (5 ∷ 6 ∷ [], q'))
    × Rep q' (7 ∷ [])
    × (q'.capacity ≡ three.capacity)
pop_front_to-Rep_run = pop_front_to-Rep 2 three-Rep (unfold push_back make in omega arith)

run_refines_example : Agree (run script (make 2)) (some (1 ∷ 2 ∷ 3 ∷ 4 ∷ 5 ∷ [], 6 ∷ []))
run_refines_example = run_refines script (make-Rep 2)

three-destroyed :
    (m : ℕ → Option ℕ) × (destroy three ≡ some (5 ∷ 6 ∷ 7 ∷ [], m)) × ((k : ℕ) → m k ≡ none)
three-destroyed = destroy_lem three-Rep

three-assigned :
    (m : ℕ → Option ℕ) × (assign (make 2) three ≡ some (make 2, 5 ∷ 6 ∷ 7 ∷ [], m))
    × ((k : ℕ) → m k ≡ none)
    × Rep {A = ℕ} (make 0) []
three-assigned = assign_lem three-Rep
