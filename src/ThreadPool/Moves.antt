-- ===== src/ThreadPool/Moves.antt =====
-- What each step of a thread pool (corral/ThreadPool.h) does to its tasks.
use native.Mathlib.Nat.{mod-lt}
use corral.Base.{
  ℕ, ◌%◌, ◌<◌, ◌≡◌, refl, sym, subst, ◌∙◌, ap, ap₂, Bool, true, false, ltb, ltb→lt, List, [], ◌∷◌,
  ◌++◌, append-nil, append_assoc, Option, none, some, if◌then◌else◌, Bool-cases, inl, inr, arith,
}
use corral.ThreadPool.{
  Worker, idle, posting, seeking, running, Phase, outside, submitting, draining, Pool, push_to_sq,
  submit, submit_in, submit_next, claim_by, take_from, pop_by, is_nil, complete_by, post_by,
  reverse_batch, begin_tick, drain_step, by_worker,
}
use corral.ThreadPool.Places.{
  count, in_slot, with_worker, batch, Inv, total-update, reverse_batch-cons, Kept-in_order,
  same_task, push-Kept, push-present, push-backoff, count-snoc, count-cons,
}

module _ (p : Pool) (v : Inv p) where
  pub submit-Inv : (b : ℕ) → Inv (submit b p)
  unfolding submit
  submit-Inv b =
      let q = record p { submitted = p.submitted ++ b ∷ [] } in
      let k = push-Kept 0 b q v.room in
      elim (Bool-cases (push_to_sq b q).1) [
        | inl e ↦ rw e (record {
          room = subst (λ n. 0 < n) (sym k.sq_capacity) v.room;
          conserved = λ a. omega (
            arith,
            ap (count a) k.submitted,
            count-snoc a b p.submitted,
            v.conserved a,
            push-present a b q v.room,
            ap (λ d. if d then same_task a b else 0) e,
          );
          in_order = Kept-in_order k v.in_order;
        })
        | inr e ↦ rw e (record {
          room = subst (λ n. 0 < n) (sym k.sq_capacity) v.room;
          conserved = λ a. omega (
            arith,
            ap (count a) k.submitted,
            count-snoc a b p.submitted,
            v.conserved a,
            push-present a b q v.room,
            ap (λ d. if d then same_task a b else 0) e,
            count-snoc a b (push_to_sq b q).0.backoff,
          );
          in_order = Kept-in_order k v.in_order;
        })
      ]

same_task_lem : (a b : ℕ) → same_task a b ≡ with_worker a (running b)
unfolding same_task
same_task_lem a b = refl

-- A worker that has completed a task runs none.
runs_none : (a : ℕ) (empty : Bool) → with_worker a (if empty then posting else idle) ≡ 0
runs_none a true = refl
runs_none a false = refl

module _ (p : Pool) (v : Inv p) where
  pub submit_in-Inv : (b : ℕ) → Inv (submit_in p.phase b p)
  submit_in-Inv b = by_phase p.phase
    where
      by_phase : (ph : Phase) → Inv (submit_in ph b p)
      by_phase outside = submit-Inv p v b
      by_phase (draining bs) = submit-Inv p v b
      by_phase submitting = v

  submit_next-Inv : p.phase ≡ submitting → Inv (submit_next p.backoff p)
  unfolding submit_next
  submit_next-Inv e = by_backoff p.backoff refl
    where
      order : p.completed ≡ p.resumed ++ reverse_batch [] p.cq
      order = v.in_order ∙ ap (λ f. p.resumed ++ (batch f ++ reverse_batch [] p.cq)) e

      by_backoff : (bs : List ℕ) → p.backoff ≡ bs → Inv (submit_next bs p)
      by_backoff [] f = record { room = v.room; conserved = v.conserved; in_order = order }
      by_backoff (b ∷ bs) f =
          let k = push-Kept 0 b p v.room in
          elim (Bool-cases (push_to_sq b p).1) [
            | inl d ↦ rw d (record {
              room = subst (λ n. 0 < n) (sym k.sq_capacity) v.room;
              conserved = λ a. omega (
                arith,
                v.conserved a,
                ap (count a) k.submitted,
                push-present a b p v.room,
                ap (λ d. if d then same_task a b else 0) d,
                ap (count a) (push-backoff a b p v.room),
                ap (count a) f,
                count-cons a b bs,
              );
              in_order = Kept-in_order k v.in_order;
            })
            | inr d ↦ rw d (record {
              room = subst (λ n. 0 < n) (sym k.sq_capacity) v.room;
              conserved = λ a. omega (
                arith,
                v.conserved a,
                ap (count a) k.submitted,
                push-present a b p v.room,
                ap (λ d. if d then same_task a b else 0) d,
              );
              in_order =
                  Kept-in_order k v.in_order
                  ∙ ap
                      (λ f.
                        (push_to_sq b p).0.resumed
                        ++ (batch f ++ reverse_batch [] (push_to_sq b p).0.cq))
                      (k.phase ∙ e);
            })
          ]

  pub drain_step-Inv : Inv (drain_step p.phase p.cq p)
  unfolding drain_step
  drain_step-Inv = by_phase p.phase p.cq refl refl
    where
      order :
          (ph : Phase) (qs : List ℕ)
          → p.phase ≡ ph
          → p.cq ≡ qs
          → p.completed ≡ p.resumed ++ (batch ph ++ reverse_batch [] qs)
      order ph qs e f = v.in_order ∙ ap₂ (λ f qs. p.resumed ++ (batch f ++ reverse_batch [] qs)) e f

      by_phase : (ph : Phase) (qs : List ℕ) → p.phase ≡ ph → p.cq ≡ qs → Inv (drain_step ph qs p)
      by_phase outside qs e f = v
      by_phase (draining (a ∷ bs)) qs e f = record {
        room = v.room;
        conserved = v.conserved;
        in_order =
            order (draining (a ∷ bs)) p.cq e refl
            ∙ sym (append_assoc p.resumed (a ∷ []) (bs ++ reverse_batch [] p.cq));
      }
      by_phase (draining []) (a ∷ bs) e f = record {
        room = v.room;
        conserved = v.conserved;
        in_order =
            order (draining []) (a ∷ bs) e f
            ∙ ap (λ qs. p.resumed ++ qs) (sym (append-nil (reverse_batch [] (a ∷ bs))));
      }
      by_phase (draining []) [] e f = record {
        room = v.room;
        conserved = v.conserved;
        in_order = order (draining []) p.cq e refl;
      }
      by_phase submitting qs e f = submit_next-Inv e

  pub begin_tick-Inv : Inv (begin_tick p.phase p)
  begin_tick-Inv = by_phase p.phase refl
    where
      by_phase : (ph : Phase) → p.phase ≡ ph → Inv (begin_tick ph p)
      by_phase (draining bs) e = v
      by_phase submitting e = v
      by_phase outside e = elim (Bool-cases (ltb 0 p.posts)) [
        | inr f ↦ rw f v
        | inl f ↦ rw f (record {
          room = v.room;
          conserved = v.conserved;
          in_order =
              v.in_order ∙ ap (λ qs. p.resumed ++ (qs ++ reverse_batch [] p.cq)) (ap batch e);
        })
      ]

  pub claims-Inv : (w : ℕ) → w < p.threads → Inv (claim_by (p.workers w) w p)
  claims-Inv w h = by_state (p.workers w) refl
    where
      by_state : (s : Worker) → p.workers w ≡ s → Inv (claim_by s w p)
      by_state idle e = record {
        room = v.room;
        conserved = λ a. omega (
          arith,
          v.conserved a,
          total-update (with_worker a) p.threads w p.workers (seeking p.sq_head) h,
          ap (with_worker a) e,
        );
        in_order = v.in_order;
      }
      by_state posting e = v
      by_state (seeking n) e = v
      by_state (running b) e = v

  pub posts-Inv : (w : ℕ) → w < p.threads → Inv (post_by (p.workers w) w p)
  posts-Inv w h = by_state (p.workers w) refl
    where
      by_state : (s : Worker) → p.workers w ≡ s → Inv (post_by s w p)
      by_state posting e = record {
        room = v.room;
        conserved = λ a. omega (
          arith,
          v.conserved a,
          total-update (with_worker a) p.threads w p.workers idle h,
          ap (with_worker a) e,
        );
        in_order = v.in_order;
      }
      by_state idle e = v
      by_state (seeking n) e = v
      by_state (running b) e = v

  pub pops-Inv : (w : ℕ) → w < p.threads → Inv (pop_by (p.workers w) w p)
  pops-Inv w h = by_state (p.workers w) refl
    where
      by_slot :
          (o : Option ℕ) (n : ℕ)
          → n < p.sq_capacity
          → p.sq n ≡ o
          → ((a : ℕ) → with_worker a (p.workers w) ≡ 0)
          → Inv (take_from o n w p)
      by_slot none n s f e = v
      by_slot (some b) n s f e = record {
        room = v.room;
        conserved = λ a. omega (
          arith,
          v.conserved a,
          total-update (with_worker a) p.threads w p.workers (running b) h,
          total-update (in_slot a) p.sq_capacity n p.sq none s,
          ap (in_slot a) f,
          e a,
        );
        in_order = v.in_order;
      }

      by_state : (s : Worker) → p.workers w ≡ s → Inv (pop_by s w p)
      by_state (seeking n) e =
          by_slot (p.sq (n % p.sq_capacity)) (n % p.sq_capacity) (mod-lt n v.room) refl
            (λ a. ap (with_worker a) e)
      by_state idle e = v
      by_state posting e = v
      by_state (running b) e = v

  pub completes-Inv : (w : ℕ) → w < p.threads → Inv (complete_by (p.workers w) w p)
  unfolding reverse_batch
  completes-Inv w h = by_state (p.workers w) refl
    where
      by_state : (s : Worker) → p.workers w ≡ s → Inv (complete_by s w p)
      by_state (running b) e = record {
        room = v.room;
        conserved = λ a. omega (
          arith,
          v.conserved a,
          count-snoc a b p.completed,
          same_task_lem a b,
          total-update (with_worker a) p.threads w p.workers (if is_nil p.cq then posting else idle)
              h,
          runs_none a (is_nil p.cq),
          ap (with_worker a) e,
        );
        in_order =
            ap (λ qs. qs ++ b ∷ []) v.in_order
            ∙ append_assoc p.resumed (batch p.phase ++ reverse_batch [] p.cq) (b ∷ [])
            ∙ ap (λ qs. p.resumed ++ qs)
                (append_assoc (batch p.phase) (reverse_batch [] p.cq) (b ∷ [])
                  ∙ ap (λ qs. batch p.phase ++ qs) (sym (reverse_batch-cons b p.cq)));
      }
      by_state idle e = v
      by_state posting e = v
      by_state (seeking n) e = v

  pub by_worker-Inv :
      (f : Worker → ℕ → Pool → Pool)
      → ((w : ℕ) → w < p.threads → Inv (f (p.workers w) w p))
      → (w : ℕ) → Inv (by_worker f w p)
  by_worker-Inv f keep w = elim (Bool-cases (ltb w p.threads)) [
    | inl e ↦ rw e (keep w (ltb→lt w p.threads e))
    | inr e ↦ rw e v
  ]
