-- ===== src/Buffer/Receive.antt =====
-- Taking bytes out of a buffer as a string, and `read_fd`, against the queue of bytes.
use reactor_network_lib.Common.{
  ◌≡◌, List, ℕ, take, ◌++◌, length, ◌+◌, ◌≤◌, ◌<◌, drop, leb, max_size, arith, ok, [], ◌∙◌,
  length-take, ap, true, ◌-◌, ◌>>=◌, refl, length-drop, add_size, false, take-of_length_le, dec_le,
  append_assoc, take-append-drop,
}
use reactor_network_lib.Buffer.{
  Buffer, append, List, ℕ, take, length, drop, leb, writable_bytes, ok, retrieve_as_string, read_fd,
  extra_size, [], got, retrieve_all, count, true, add_size, false,
}
use reactor_network_lib.Buffer.Inv.{IsValid, content, writable_bytes_lem, readable_bytes_lem}
use reactor_network_lib.Buffer.Space.{length-written, read_at_fits, copy_to_fits}
use reactor_network_lib.Buffer.Refine.{written, written_lem, append_refines, append_data_all}

-- `retrieve_as_string` hands out every readable byte and leaves an empty buffer.
pub retrieve_as_string_refines :
    (b : Buffer)
    → IsValid b
    → (b' : Buffer) × (retrieve_as_string b ≡ ok (content b, b'))
      × IsValid b'
      × (content b' ≡ [])
      × (b'.buffer ≡ b.buffer)
unfolding retrieve_as_string
retrieve_as_string_refines b v = (
  retrieve_all b,
  rw (
    readable_bytes_lem v,
    read_at_fits b.buffer b.reader_index (b.writer_index - b.reader_index)
        (omega (arith, v.ordered, v.within)),
  ),
  record { header = omega arith; ordered = omega arith; within = omega arith; small = v.small },
  refl,
  refl,
)

read_fd_within :
    (b : Buffer) (xs : List ℕ)
    → IsValid b
    → length xs ≤ writable_bytes b
    → read_fd b (got xs) ≡ ok (count (length xs), written b xs)
unfolding read_fd
read_fd_within b xs v fits =
    let room : b.writer_index + length xs ≤ length b.buffer =
      omega (arith, writable_bytes_lem v, v.within) in
    let wraps : add_size b.writer_index (length xs) ≡ b.writer_index + length xs =
      omega (arith, v.small) in
    let test : leb (length xs) (writable_bytes b) ≡ true = ground arith in
    rw (
      take-of_length_le (writable_bytes b) xs fits,
      copy_to_fits xs b.writer_index b.buffer room,
      test,
      wraps,
    )

-- What does not fit goes to the array on the stack, and from there through `append`.
read_fd_over :
    (b : Buffer) (xs : List ℕ)
    → IsValid b
    → writable_bytes b < length xs
    → length xs ≤ writable_bytes b + extra_size
    → read_fd b (got xs) ≡ (do
      b' ← append (written b (take (writable_bytes b) xs)) (drop (writable_bytes b) xs)
      ok (count (length xs), b'))
unfolding read_fd
read_fd_over b xs v over small =
    let part : length (take (writable_bytes b) xs) ≡ writable_bytes b =
      omega (arith, length-take (writable_bytes b) xs) in
    let fits : b.writer_index + length (take (writable_bytes b) xs) ≤ length b.buffer =
      omega (arith, writable_bytes_lem v, v.within) in
    let size = length-written (take (writable_bytes b) xs) b.writer_index b.buffer fits in
    let end : length b.buffer ≡ b.writer_index + length (take (writable_bytes b) xs) =
      omega (arith, writable_bytes_lem v, v.within) in
    let rest : length xs - writable_bytes b ≡ length (drop (writable_bytes b) xs) =
      omega (arith, length-drop (writable_bytes b) xs) in
    let test : leb (length xs) (writable_bytes b) ≡ false = ground arith in
    let stack : leb (length xs - writable_bytes b) extra_size ≡ true = ground arith in
    rw (copy_to_fits (take (writable_bytes b) xs) b.writer_index b.buffer fits, test, stack)
      (rw (size ∙ end) (rw (rest, append_data_all) refl))

-- On a valid buffer with room below 2^63, `read_fd` of what `readv` read, at most the writable
-- bytes and the array on the stack, appends all of it, whether it fitted into the vector or went
-- to the array, and counts it; the buffer stays valid.
pub read_fd_refines :
    (b : Buffer) (xs : List ℕ)
    → IsValid b
    → length xs ≤ writable_bytes b + extra_size
    → length b.buffer + length xs < max_size
    → (b' : Buffer) × (read_fd b (got xs) ≡ ok (count (length xs), b'))
      × IsValid b'
      × (content b' ≡ content b ++ xs)
      × (length b'.buffer ≤ length b.buffer + length xs)
read_fd_refines b xs v small room = elim (dec_le (length xs) (writable_bytes b)) [
  | yes fits ↦
      let (valid, same, kept) = written_lem b xs v fits in
      (written b xs, read_fd_within b xs v fits, valid, same, omega (arith, kept))
  | no over ↦
      let part = length-take (writable_bytes b) xs in
      let rest = length-drop (writable_bytes b) xs in
      let (front, filled, kept) =
        written_lem b (take (writable_bytes b) xs) v (omega (arith, part)) in
      let (b', ran, valid, same, grown) =
        append_refines (written b (take (writable_bytes b) xs)) (drop (writable_bytes b) xs) front
          (omega (arith, part, rest, writable_bytes_lem v, v.within)) in
      (
        b',
        rw (read_fd_over b xs v (omega arith) small, ran),
        valid,
        same
            ∙ ap (λ t. t ++ drop (writable_bytes b) xs) filled
            ∙ append_assoc (content b) (take (writable_bytes b) xs) (drop (writable_bytes b) xs)
            ∙ ap (λ t. content b ++ t) (take-append-drop (writable_bytes b) xs),
        omega (arith, kept, grown, rest),
      )
]
