-- ===== src/Channel/Tests.antt =====
-- Instances of the theorems about corral/Channel.h at small channels.
use corral.Base.{
  ℕ, ◌-◌, ◌<◌, ◌≡◌, min, remove, take, refl, inl, true, false, List, [], ◌∷◌, none, some, arith,
  has,
}
use corral.Queue.{make, push_back}
use corral.Queue.Rep.{Rep, make-Rep}
use corral.Queue.Grow.{push_back-Rep}
use corral.Channel.{
  Half, Channel, idle_half, wake_each, space, read_one, read_many, write_one, write_many,
  write_each, close,
}
use corral.Channel.Inv.{Inv, bounded_by-Inv}
use corral.Channel.Read.{read_one-takes, read_many-takes}
use corral.Channel.Write.{write_one-puts}
use corral.Channel.WriteRange.{write_many-puts, write_each-puts}
use corral.Channel.Closing.{close-Inv}
use corral.Channel.Awaiters.{reading, construct, await_suspend, resume_read, resume_write, ready}
use corral.Channel.Claims.{construct-Inv, await_suspend-Inv}
use corral.Channel.Resume.{resume_read-claimed, resume_write-claimed, resume_write-closed}

abbrev two_slots : Channel ℕ
two_slots = record {
  buf = make 2;
  closed = false;
  bounded = true;
  reads = idle_half;
  writes = idle_half;
}

-- One element in a buffer of two.
abbrev one_item : Channel ℕ
one_item = record two_slots { buf = push_back 7 (make 2) }

-- The same, claimed by reader 4.
abbrev item_claimed : Channel ℕ
item_claimed = record one_item { reads = record idle_half { claims = 1; claimed = 4 ∷ [] } }

-- The same with the other slot claimed by writer 5.
abbrev slot_claimed : Channel ℕ
slot_claimed = record one_item { writes = record idle_half { claims = 1; claimed = 5 ∷ [] } }

two_slots-Inv : Inv 0 0 two_slots []
two_slots-Inv = (bounded_by-Inv 2 refl).0

one_item-Rep : Rep one_item.buf (7 ∷ [])
one_item-Rep = (push_back-Rep 7 (make-Rep 2)).0

one_item-Inv : Inv 0 0 one_item (7 ∷ [])
unfolding push_back make
one_item-Inv = record {
  counts = record {
    holds = one_item-Rep;
    read_claims = refl;
    write_claims = refl;
    reads_within = omega arith;
    writes_within = λ b. omega arith;
  };
  settled = record { reads_settled = inl refl; writes_settled = inl refl };
}

item_claimed-Inv : Inv 0 0 item_claimed (7 ∷ [])
unfolding push_back make
item_claimed-Inv = record {
  counts = record {
    holds = one_item-Rep;
    read_claims = refl;
    write_claims = refl;
    reads_within = omega arith;
    writes_within = λ b. omega arith;
  };
  settled = record { reads_settled = inl refl; writes_settled = inl refl };
}

slot_claimed-Inv : Inv 0 0 slot_claimed (7 ∷ [])
unfolding push_back make
slot_claimed-Inv = record {
  counts = record {
    holds = one_item-Rep;
    read_claims = refl;
    write_claims = refl;
    reads_within = omega arith;
    writes_within = λ b. omega arith;
  };
  settled = record { reads_settled = inl refl; writes_settled = inl refl };
}

abbrev three_waiting : Half
three_waiting = record idle_half { lot = record { parked = 1 ∷ 2 ∷ 3 ∷ []; resumed = [] } }

wakes_two : (wake_each (λ h. 2 - h.claims) (1 ∷ 2 ∷ 3 ∷ []) three_waiting).resumed ≡ 1 ∷ 2 ∷ []
unfolding wake_each
wakes_two = refl

bounded_by-Inv_run : Inv 0 0 two_slots [] × (space two_slots two_slots.writes ≡ 2) × (◌<◌ 0 2)
bounded_by-Inv_run = bounded_by-Inv 2 refl

read_one-takes_example :
    (c' : Channel ℕ) × (read_one 0 one_item ≡ some (some 7, c')) × Inv 0 0 c' []
unfolding push_back make
read_one-takes_example = read_one-takes one_item-Inv (omega arith) (omega arith)

read_many-takes_example :
    (c' : Channel ℕ) × (read_many 0 5 one_item ≡ some (7 ∷ [], c')) × Inv 0 0 c' []
unfolding push_back make
read_many-takes_example = read_many-takes 5 one_item-Inv (omega arith)

write_one-puts_example :
    (c' : Channel ℕ) × (write_one 0 8 one_item ≡ some (true, c'))
    × Inv 0 0 c' (7 ∷ 8 ∷ [])
    × (true ≡ true → c'.buf.capacity ≡ one_item.buf.capacity)
unfolding push_back make
write_one-puts_example = write_one-puts 8 one_item-Inv (omega arith) refl (omega arith)

write_many-puts_example :
    (n : ℕ) × (c' : Channel ℕ) × (write_many 0 (8 ∷ 9 ∷ []) one_item ≡ some (n, c'))
    × (true ≡ false → n ≡ 2)
    × (true ≡ true → n ≡ min 2 1)
    × Inv 0 0 c' (7 ∷ take n (8 ∷ 9 ∷ []))
    × (true ≡ true → c'.buf.capacity ≡ one_item.buf.capacity)
unfolding push_back make
write_many-puts_example =
    write_many-puts (8 ∷ 9 ∷ []) one_item-Inv (omega arith) refl (omega arith) (omega arith)
      (λ b. omega arith)

write_each-puts_test :
    (c' : Channel ℕ) × (write_each 0 (8 ∷ 9 ∷ []) one_item ≡ some (1, c'))
    × Inv 0 0 c' (7 ∷ 8 ∷ [])
    × (true ≡ true → c'.buf.capacity ≡ one_item.buf.capacity)
unfolding push_back make
write_each-puts_test =
    write_each-puts (8 ∷ 9 ∷ []) one_item-Inv (omega arith) refl (omega arith) (omega arith)

-- The assertion fails on an unbounded channel.

construct-Inv_run : Inv 0 0 (construct reading 4 false one_item) (7 ∷ [])
construct-Inv_run = construct-Inv one_item-Inv reading 4 false

await_suspend-Inv_example :
    (c' : Channel ℕ) × (await_suspend reading 4 two_slots ≡ some (true, c'))
    × Inv 0 0 c' []
    × (two_slots.reads.claims ≡ 0
        → (c'.reads.parked ≡ 4 ∷ []) × (c'.reads.claimed ≡ []) × (c'.reads.claims ≡ 0))
    × (0 < 0 → (c'.reads.parked ≡ []) × (c'.reads.claimed ≡ 4 ∷ []) × (c'.reads.claims ≡ 1))
unfolding ready make remove
await_suspend-Inv_example = await_suspend-Inv two_slots-Inv reading 4 refl

resume_read-claimed_example :
    (x : ℕ) × (ys : List ℕ) × (c' : Channel ℕ) × (◌≡◌ {A = List ℕ} (7 ∷ []) (x ∷ ys))
    × (resume_read 4 item_claimed ≡ some (some x, c'))
    × Inv 0 0 c' ys
unfolding has
resume_read-claimed_example = resume_read-claimed 4 item_claimed-Inv refl

resume_write-claimed_test :
    (c' : Channel ℕ) × (resume_write 5 8 slot_claimed ≡ some (true, c'))
    × Inv 0 0 c' (7 ∷ 8 ∷ [])
    × (true ≡ true → c'.buf.capacity ≡ slot_claimed.buf.capacity)
unfolding has
resume_write-claimed_test = resume_write-claimed 5 8 slot_claimed-Inv refl refl

closed_in_between : resume_write 5 8 (close slot_claimed) ≡ none
unfolding has close
closed_in_between = resume_write-closed 5 8 (close-Inv slot_claimed-Inv).0 refl refl
