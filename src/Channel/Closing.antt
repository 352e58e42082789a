-- ===== src/Channel/Closing.antt =====
-- `Channel::close` of corral/Channel.h, and transfers on a channel that is closed.
use corral.Base.{
  ℕ, ◌<◌, ◌≡◌, refl, inl, inr, true, List, [], ◌++◌, length, none, some, if◌then◌else◌, arith,
}
use corral.ParkingLot.Laws.{unpark_all_lem}
use corral.Channel.{Channel, close, write_one, write_many}
use corral.Channel.Inv.{Inv}

module _ {A : Type 0} where
  pub close-Inv :
      {kr kw : ℕ} {c : Channel A} {xs : List A}
      → Inv kr kw c xs
      → Inv kr kw (close c) xs
        × ((close c).reads.resumed ≡ c.reads.resumed ++ c.reads.parked)
        × ((close c).writes.resumed ≡ c.writes.resumed ++ c.writes.parked)
        × ((close c).reads.parked ≡ [])
        × ((close c).writes.parked ≡ [])
  unfolding close
  close-Inv {c = c} v = (
    record {
      counts = record {
        holds = v.counts.holds;
        read_claims = v.counts.read_claims;
        write_claims = v.counts.write_claims;
        reads_within = v.counts.reads_within;
        writes_within = v.counts.writes_within;
      };
      settled = record { reads_settled = inl refl; writes_settled = inr refl };
    },
    (unpark_all_lem c.reads.lot).1,
    (unpark_all_lem c.writes.lot).1,
    refl,
    refl,
  )

  -- A range write without a claim to a closed channel: a bounded channel takes nothing, but an
  -- unbounded one fails the assertion that the channel is open, whatever the range, unless it is empty.
  write_many-closed :
      (c : Channel A) (ys : List A)
      → c.closed ≡ true
      → 0 < length ys
      → write_many 0 ys c ≡ (if c.bounded then some (0, c) else none)
  unfolding write_many
  write_many-closed c ys e h = ground arith

  -- A writer that holds a claim when the channel is closed fails the same assertion when it resumes.
  pub write_one-closed :
      (c : Channel A) (x : A) → c.closed ≡ true → 0 < c.writes.claims → write_one 1 x c ≡ none
  unfolding write_one
  write_one-closed c x e h = ground arith
