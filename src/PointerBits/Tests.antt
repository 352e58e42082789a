-- ===== src/PointerBits/Tests.antt =====
-- Instances of the theorems about corral/detail/PointerBits.h.
use corral.Base.{◌^◌, ◌<◌, ◌≡◌, refl, some, none, arith}
use corral.PointerBits.{ptr, bits, set, set_bits}
use corral.PointerBits.Packing.{set_round_trip}

-- Three bits below an address that is a multiple of 8.
packed : set 3 0x1230 5 ≡ some 0x1235
unfolding set
packed = refl

replaced : set_bits 3 2 0x1235 ≡ some 0x1232
unfolding set ptr
replaced = refl

unaligned : set 3 0x1234 5 ≡ none
unfolding set
unaligned = refl

set_round_trip_test :
    (set 3 0x1230 5 ≡ some 0x1235)
    × (◌<◌ 0x1235 (2 ^ 64))
    × (ptr 3 0x1235 ≡ 0x1230)
    × (bits 3 0x1235 ≡ 5)
    × (set 3 (ptr 3 0x77) (bits 3 0x77) ≡ some 0x77)
set_round_trip_test =
    set_round_trip 3 (omega arith) 0x1230 5 0x77 (omega arith) refl (omega arith) (omega arith)
