-- ===== src/PointerBits.antt =====
-- corral/detail/PointerBits.h: a pointer with a few bits in the low bits of its address. Words have 64
-- bits; an address is a number below 2 ^ 64, and a width is at most 31, since the mask is shifted from
-- an int.
pub mod Bits
pub mod Packing
mod Tests
use Prim.Native.Nat.{bit_and, bit_or}
use corral.Base.{ℕ, ◌-◌, ◌^◌, Bool, true, false, ◌&&◌, ◌==◌, Option, none, some, if◌then◌else◌}

-- `BitsMask`
abbrev pub bits_mask : ℕ → ℕ
bits_mask width = 2 ^ width - 1

-- `~` on a word.
abbrev pub complement : ℕ → ℕ
complement x = 2 ^ 64 - 1 - x

-- `ptr` and `bits` of the merged form, from `data_`.
unfoldable pub ptr : ℕ → ℕ → ℕ
ptr width word = bit_and word (complement (bits_mask width))

unfoldable pub bits : ℕ → ℕ → ℕ
bits width word = bit_and word (bits_mask width)

-- `set` of the merged form; `none` is a failed assertion.
unfoldable pub set : ℕ → ℕ → ℕ → Option ℕ
set width p b =
    if bit_and p (bits_mask width) == 0 && bit_and b (complement (bits_mask width)) == 0
    then some (bit_or p b)
    else none

-- `setPtr` and `setBits`
abbrev pub set_ptr : ℕ → ℕ → ℕ → Option ℕ
set_ptr width p word = set width p (bits width word)

abbrev pub set_bits : ℕ → ℕ → ℕ → Option ℕ
set_bits width b word = set width (ptr width word) b
