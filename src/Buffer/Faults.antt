-- ===== src/Buffer/Faults.antt =====
-- What `prepend` and `shrink` really do, against what their names promise.
use reactor_network_lib.Common.{
  ◌≡◌, List, ℕ, ◌≤◌, ok, length, ◌+◌, slice, ◌<◌, fault, max_size, ◌-◌, memory, ◌++◌, slice-append,
  arith, take, length-take, drop, ◌∙◌, slice-take_le, slice-append-slice, add_size, replicate,
  length-replicate, slice-write, refl,
}
use reactor_network_lib.Buffer.{
  prepend, shrink, Buffer, List, ℕ, ok, k_cheap_prepend, length, writable_bytes, copy_to, take,
  drop, add_size, readable_bytes, replicate,
}
use reactor_network_lib.Buffer.Inv.{
  IsValid, content, writable_bytes_lem, length-content, readable_bytes_lem,
}
use reactor_network_lib.Buffer.Space.{read_at_fits, copy_to_fits, length-written}

prepended :
    (b b' : Buffer) (xs : List ℕ) (len : ℕ)
    → IsValid b
    → prepend b xs len ≡ ok b'
    → let at : ℕ = b.writer_index + (b.reader_index - len) in
      (len ≤ b.reader_index)
      × (at + length (take len xs) ≤ length b.buffer)
      × (b' ≡ record b {
        buffer = take at b.buffer ++ (take len xs ++ drop (at + length (take len xs)) b.buffer);
        reader_index = b.reader_index - len;
      })
unfolding prepend copy_to
prepended b b' xs len v h = ground arith

-- Where `prepend` on a valid buffer does not fault, the readable bytes stay, but those put in
-- front of them are the bytes that happened to stand there, whatever the data: its copy goes
-- behind the writer index.
pub prepend_ignores_data :
    (b b' : Buffer) (xs : List ℕ) (len : ℕ)
    → IsValid b
    → prepend b xs len ≡ ok b'
    → content b' ≡ slice (b.reader_index - len) b.reader_index b.buffer ++ content b
prepend_ignores_data b b' xs len v h =
    let (few, fits, e) = prepended b b' xs len v h in
    let at : ℕ = b.writer_index + (b.reader_index - len) in
    rw e (
      slice-append (b.reader_index - len) b.writer_index (take at b.buffer) _
        (omega (arith, v.ordered)) (omega (arith, length-take at b.buffer, v.within))
      ∙ slice-take_le (b.reader_index - len) b.writer_index at b.buffer (omega (arith, v.ordered))
          (omega arith)
      ∙ slice-append-slice (b.reader_index - len) b.reader_index b.writer_index b.buffer
          (omega arith) v.ordered)

-- On a valid buffer with fewer writable than prependable bytes, the copy of any `prepend` that its
-- assertion lets through leaves the vector.
pub prepend_out_of_bounds :
    (b : Buffer) (xs : List ℕ) (len : ℕ)
    → IsValid b
    → len ≤ b.reader_index
    → len ≤ length xs
    → writable_bytes b < b.reader_index
    → prepend b xs len ≡ fault memory
unfolding prepend copy_to
prepend_out_of_bounds b xs len v h k short =
    ground (arith, writable_bytes_lem v, length-take len xs)

-- `shrink` keeps both indices. The bytes that were readable stand at the front of the new vector, so
-- the buffer reads other bytes unless its reader index was there; and where that index lies more than
-- `reserve` behind the front, the writer index is past the end of the vector.
pub shrink_lem :
    (b : Buffer) (reserve : ℕ)
    → IsValid b
    → k_cheap_prepend + length b.buffer + reserve < max_size
    → (b' : Buffer) × (shrink b reserve ≡ ok b')
      × (length b'.buffer ≡ k_cheap_prepend + length (content b) + reserve)
      × (slice k_cheap_prepend (k_cheap_prepend + length (content b)) b'.buffer ≡ content b)
      × (b'.reader_index ≡ b.reader_index)
      × (b'.writer_index ≡ b.writer_index)
unfolding shrink
shrink_lem b reserve v room =
    let count = length-content v in
    let total : add_size (add_size k_cheap_prepend (readable_bytes b)) reserve
        ≡ k_cheap_prepend + length (content b) + reserve =
      omega (arith, readable_bytes_lem v) in
    let fresh : List ℕ = replicate (k_cheap_prepend + length (content b) + reserve) 0 in
    let zeros = length-replicate {A = ℕ} (k_cheap_prepend + length (content b) + reserve) 0 in
    let fits : k_cheap_prepend + length (content b) ≤ length fresh = omega (arith, zeros) in
    (
      record b {
        buffer =
            take k_cheap_prepend fresh
            ++ (content b ++ drop (k_cheap_prepend + length (content b)) fresh);
      },
      rw (
        total,
        readable_bytes_lem v,
        read_at_fits b.buffer b.reader_index (b.writer_index - b.reader_index)
            (omega (arith, v.ordered, v.within)),
        copy_to_fits (content b) k_cheap_prepend fresh fits,
      ),
      length-written (content b) k_cheap_prepend fresh fits ∙ zeros,
      slice-write k_cheap_prepend k_cheap_prepend fresh (content b)
          (drop (k_cheap_prepend + length (content b)) fresh) (omega arith) (omega arith),
      refl,
      refl,
    )

-- `shrink` of a valid buffer whose reader index lies more than `reserve` behind the reserved
-- front, the sizes being below 2^63, leaves a buffer that is not valid.
pub shrink_not_valid :
    (b b' : Buffer) (reserve : ℕ)
    → IsValid b
    → k_cheap_prepend + length b.buffer + reserve < max_size
    → k_cheap_prepend + reserve < b.reader_index
    → shrink b reserve ≡ ok b'
    → ¬ IsValid b'
shrink_not_valid b b' reserve v room far h valid =
    let (b'', ran, size, _, _, kept) = shrink_lem b reserve v room in
    ground (arith, length-content v, readable_bytes_lem v)
