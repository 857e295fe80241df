-- ===== src/Buffer/Tests.antt =====
-- A buffer of ten bytes on which the theorems are applied.
use reactor_network_lib.Buffer.Inv.{IsValid, content}
use reactor_network_lib.Buffer.{
  copy_to, read_at, readable_bytes, Buffer, prepend, replicate, [], shrink,
}
use reactor_network_lib.Common.{arith, List, ◌≡◌, slice, ◌∷◌, replicate, [], ◌++◌, refl}
use reactor_network_lib.Buffer.Run.{
  seen, Op, run, put, queue_run, skip, run_refines, receive, drain,
}
use reactor_network_lib.Buffer.Faults.{shrink_not_valid, prepend_ignores_data}

abbrev ten_bytes : Buffer
ten_bytes = record {
  buffer = 0 ∷ 1 ∷ 2 ∷ 3 ∷ 4 ∷ 5 ∷ 6 ∷ 7 ∷ 8 ∷ 9 ∷ [];
  reader_index = 8;
  writer_index = 10;
}

ten_bytes-IsValid : IsValid ten_bytes
ten_bytes-IsValid = record {
  header = omega arith;
  ordered = omega arith;
  within = omega arith;
  small = omega arith;
}

-- The same with both bytes read and a third before the readable ones gone.
abbrev nothing_left : Buffer
nothing_left = record ten_bytes { reader_index = 10 }

nothing_left-IsValid : IsValid nothing_left
nothing_left-IsValid = record {
  header = omega arith;
  ordered = omega arith;
  within = omega arith;
  small = omega arith;
}

abbrev calls : List Op
calls = put (1 ∷ 2 ∷ []) ∷ skip 1 ∷ receive (3 ∷ []) ∷ drain ∷ skip 1 ∷ []

run_refines_example : seen (run calls ten_bytes) ≡ queue_run calls (content ten_bytes)
run_refines_example = run_refines calls ten_bytes ten_bytes-IsValid (omega arith, tt) (omega arith)

-- `prepend` of one byte on a buffer with room behind the writer index.
abbrev roomy : Buffer
roomy = record { buffer = replicate 30 7; reader_index = 8; writer_index = 9 }

roomy-IsValid : IsValid roomy
roomy-IsValid = record {
  header = omega arith;
  ordered = omega arith;
  within = omega arith;
  small = omega arith;
}

abbrev prepended : Buffer
prepended = record {
  buffer = replicate 16 7 ++ 5 ∷ replicate 13 7;
  reader_index = 7;
  writer_index = 9;
}

prepend_ignores_data_example : content prepended ≡ slice 7 8 roomy.buffer ++ content roomy
unfolding prepend copy_to
prepend_ignores_data_example = prepend_ignores_data roomy prepended (5 ∷ []) 1 roomy-IsValid refl

abbrev shrunk : Buffer
shrunk = record { buffer = replicate 8 0; reader_index = 10; writer_index = 10 }

shrink_not_valid_example : ¬ IsValid shrunk
unfolding shrink read_at readable_bytes copy_to
shrink_not_valid_example =
    shrink_not_valid nothing_left shrunk 0 nothing_left-IsValid (omega arith) (omega arith) refl
