-- ===== src/Buffer/Fresh.antt =====
-- A buffer after its constructor.
use reactor_network_lib.Buffer.{
  create, k_cheap_prepend, k_initial_size, Buffer, replicate, readable_bytes, writable_bytes,
  prependable_bytes, ok, [], length,
}
use reactor_network_lib.Buffer.Inv.{IsValid, content}
use reactor_network_lib.Common.{replicate, ◌+◌, ◌≡◌, ok, [], arith, refl, length}

abbrev fresh : Buffer
fresh = record {
  buffer = replicate (k_cheap_prepend + k_initial_size) 0;
  reader_index = k_cheap_prepend;
  writer_index = k_cheap_prepend;
}

-- The constructor fails no assertion and makes a valid buffer with nothing to read.
pub create_lem : (b : Buffer) × (create ≡ ok b) × IsValid b × (content b ≡ [])
unfolding create readable_bytes writable_bytes prependable_bytes
create_lem = (
  fresh,
  refl,
  record { header = omega arith; ordered = omega arith; within = omega arith; small = omega arith },
  refl,
)

pub create_size :
    (b : Buffer) × (create ≡ ok b) × (length b.buffer ≡ k_cheap_prepend + k_initial_size)
unfolding create readable_bytes writable_bytes prependable_bytes
create_size = (fresh, refl, refl)
