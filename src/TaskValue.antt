-- ===== src/TaskValue.antt =====
-- corral/detail/TaskAwaiter.h: ValueOrPromise, by which a task holds its promise, or a result that is
-- there already, in one word of 64 bits. Small values are a word, v; a value that does not fit, or that has
-- no spare bits, is in a cell of the heap, at an address that is an argument.
pub mod Words
pub mod Stored
mod Tests
use Prim.Native.Nat.{bit_and, bit_or}
use corral.Base.{
  ℕ, ◌+◌, ◌-◌, ◌*◌, ◌/◌, ◌%◌, ◌^◌, Bool, true, false, not, ◌&&◌, ◌||◌, ◌==◌, Option, none, some,
  if◌then◌else◌, update,
}

-- `Mask`, and its complement.
abbrev pub mask : ℕ
mask = 3

abbrev pub above : ℕ
above = 2 ^ 64 - 1 - mask

-- `Mask << (sizeof(uintptr_t) * 8 - TypeBits)`
abbrev pub top : ℕ
top = mask * 2 ^ 62

-- The types of what is stored.
abbrev pub is_promise : ℕ
is_promise = 0

abbrev pub is_value_ptr : ℕ
is_value_ptr = 1

abbrev pub is_inline_value : ℕ
is_inline_value = 2

abbrev pub is_shifted_inline_value : ℕ
is_shifted_inline_value = 3

abbrev pub Cells : Type 0
Cells = ℕ → Option ℕ

-- The constructor from a promise.
unfoldable pub from_promise : ℕ → ℕ
from_promise p = bit_or p is_promise

-- The constructor from a value.
unfoldable pub from_value : Bool → ℕ → ℕ → Cells → ℕ × Cells
from_value fits_inline address v cells =
    if fits_inline && (bit_and v mask == 0)
    then (bit_or v is_inline_value, cells)
    else if fits_inline && (bit_and v top == 0)
    then (bit_or (v * 2 ^ 2 % 2 ^ 64) is_shifted_inline_value, cells)
    else (bit_or address is_value_ptr, update cells address (some v))

abbrev pub is_empty : ℕ → Bool
is_empty bits = bits == 0

abbrev pub is_consumed : ℕ → Bool
is_consumed bits = bits == is_value_ptr

unfoldable pub has_promise : ℕ → Bool
has_promise bits = bit_and bits mask == is_promise

-- `takePromise`, with what is left; `none` is a failed assertion.
unfoldable pub take_promise : ℕ → Option (ℕ × ℕ)
unfolding has_promise
take_promise bits =
    if not (bits == 0) && has_promise bits then some (bit_and bits above, 0) else none

-- `take`: the type and the rest, and what is left.
abbrev pub take : ℕ → (ℕ × ℕ) × ℕ
take bits = ((bit_and bits mask, bit_and bits above), is_value_ptr)

-- `takeValue`: the value, and what is left of the word and in the heap.
unfoldable pub take_value : Bool → ℕ → Cells → Option (ℕ × ℕ × Cells)
take_value fits_inline bits cells =
    let ((kind, rest), left) = take bits in
    if kind == is_value_ptr
    then if rest == 0
      then none
      else elim (cells rest) [ none ↦ none | some v ↦ some (v, left, update cells rest none) ]
    else if fits_inline && (kind == is_inline_value || kind == is_shifted_inline_value)
    then some (if kind == is_shifted_inline_value then rest / 2 ^ 2 else rest, left, cells)
    else none

-- The destructor: the promise that is destroyed, and what is left in the heap.
unfoldable pub destroy : ℕ → Cells → Option ℕ × Cells
destroy bits cells =
    let ((kind, rest), left) = take bits in
    if rest == 0
    then (none, cells)
    else if kind == is_promise
    then (some rest, cells)
    else if kind == is_value_ptr
    then (none, update cells rest none)
    else (none, cells)
