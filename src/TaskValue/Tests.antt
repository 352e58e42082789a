-- ===== src/TaskValue/Tests.antt =====
-- Values and promises in a word, and witnesses (corral/detail/TaskAwaiter.h).
use corral.Base.{◌-◌, ◌^◌, ◌≡◌, refl, true, none, arith}
use corral.TaskValue.{Cells, from_value}
use corral.TaskValue.Stored.{HoldsValue, value_round_trip}

abbrev no_cells : Cells
no_cells k = none

-- A small odd value is shifted, one divisible by four is not, one with bits at both ends goes to the heap.
shifted_7 : (from_value true 4096 7 no_cells).0 ≡ 31
unfolding from_value
shifted_7 = refl

inline_8 : (from_value true 4096 8 no_cells).0 ≡ 10
unfolding from_value
inline_8 = refl

heaped_all : (from_value true 4096 (2 ^ 64 - 1) no_cells).0 ≡ 4097
unfolding from_value
heaped_all = refl

value_round_trip_example :
    HoldsValue true
      (2 ^ 64 - 1)
      no_cells
      (from_value true 4096 (2 ^ 64 - 1) no_cells).0
      (from_value true 4096 (2 ^ 64 - 1) no_cells).1
value_round_trip_example =
    value_round_trip (2 ^ 64 - 1) no_cells 4096 refl true (omega arith) (omega arith) (omega arith)
      (omega arith)
