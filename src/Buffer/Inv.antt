-- ===== src/Buffer/Inv.antt =====
-- The representation invariant of a buffer, and its readable bytes.
use reactor_network_lib.Common.{
  ℕ, ◌-◌, ◌≤◌, ◌<◌, ◌≡◌, refl, List, arith, length, slice, max_size, length-slice, ◌∙◌,
}
use reactor_network_lib.Buffer.{
  Buffer, readable_bytes, writable_bytes, prependable_bytes, k_cheap_prepend, peek,
}

pub record IsValid (b : Buffer) : Type 0 where
  pub header : k_cheap_prepend ≤ b.writer_index
  pub ordered : b.reader_index ≤ b.writer_index
  pub within : b.writer_index ≤ length b.buffer
  pub small : length b.buffer < max_size

-- The bytes between the two indices: what a client reads next.
abbrev pub content : Buffer → List ℕ
content b = slice b.reader_index b.writer_index b.buffer

pub readable_bytes_lem :
    {b : Buffer} → IsValid b → readable_bytes b ≡ b.writer_index - b.reader_index
unfolding readable_bytes
readable_bytes_lem v = omega arith

pub writable_bytes_lem :
    {b : Buffer} → IsValid b → writable_bytes b ≡ length b.buffer - b.writer_index
unfolding writable_bytes
writable_bytes_lem v = omega arith

pub prependable_bytes_lem : (b : Buffer) → prependable_bytes b ≡ b.reader_index
unfolding prependable_bytes
prependable_bytes_lem b = refl

pub length-content : {b : Buffer} → IsValid b → length (content b) ≡ readable_bytes b
length-content {b} v =
    length-slice b.reader_index b.writer_index b.buffer v.ordered v.within
    ∙ omega (arith, readable_bytes_lem v)

pub peek_lem : (b : Buffer) → peek b ≡ b.reader_index
unfolding peek
peek_lem b = refl
