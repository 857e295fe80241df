-- ===== src/Buffer/Refine.antt =====
-- A valid buffer behaves as a queue of bytes: its methods against the list of readable bytes.
use reactor_network_lib.Common.{
  ◌≡◌, List, ℕ, take, ◌++◌, length, ◌+◌, if◌then◌else◌, ◌≤◌, ◌<◌, drop, leb, max_size, arith, ok,
  fault, assertion, slice-write, ◌∙◌, length-take, ap, true, drop-slice, ◌>>=◌, refl, add_size,
  take-length, sym,
}
use reactor_network_lib.Buffer.{
  Buffer, append, retrieve, List, ℕ, take, length, drop, leb, writable_bytes, ok, has_written,
  append_data, ensure_writeable_bytes, true, copy_to, add_size,
}
use reactor_network_lib.Buffer.Inv.{
  IsValid, content, writable_bytes_lem, length-content, readable_bytes_lem,
}
use reactor_network_lib.Buffer.Space.{ensured, length-written, ensure-ensured, copy_to_fits}

-- The buffer once `xs` is copied to the writer index and counted.
abbrev pub written : Buffer → List ℕ → Buffer
written b xs = record b {
  buffer = take b.writer_index b.buffer ++ (xs ++ drop (b.writer_index + length xs) b.buffer);
  writer_index = b.writer_index + length xs;
}

pub written_lem :
    (b : Buffer) (xs : List ℕ)
    → IsValid b
    → length xs ≤ writable_bytes b
    → IsValid (written b xs)
      × (content (written b xs) ≡ content b ++ xs)
      × (length (written b xs).buffer ≡ length b.buffer)
written_lem b xs v room =
    let fits : b.writer_index + length xs ≤ length b.buffer = omega (arith, writable_bytes_lem v) in
    let size = length-written xs b.writer_index b.buffer fits in
    (
      record {
        header = omega arith;
        ordered = omega arith;
        within = omega (arith, size);
        small = omega (arith, size, v.small);
      },
      slice-write b.reader_index b.writer_index b.buffer xs _ v.ordered v.within,
      size,
    )

pub append-written :
    (b : Buffer) (xs : List ℕ)
    → IsValid b
    → length xs ≤ writable_bytes b
    → (do
      v ← copy_to xs b.writer_index b.buffer
      ok (has_written (record b { buffer = v }) (length xs)))
      ≡ ok (written b xs)
unfolding has_written
append-written b xs v room =
    let fits : b.writer_index + length xs ≤ length b.buffer = omega (arith, writable_bytes_lem v) in
    let wraps : add_size b.writer_index (length xs) ≡ b.writer_index + length xs =
      omega (arith, v.small) in
    rw (copy_to_fits xs b.writer_index b.buffer fits, wraps)

pub append_ensured :
    (b : Buffer) (xs : List ℕ) {b' : Buffer}
    → ensure_writeable_bytes b (length xs) ≡ ok b'
    → IsValid b'
    → length xs ≤ writable_bytes b'
    → append b xs ≡ ok (written b' xs)
unfolding append
append_ensured b xs {b'} ran v room = rw ran (append-written b' xs v room)

-- On a valid buffer with room below 2^63, `append` does not fault, keeps the buffer valid and puts
-- the bytes behind those that are readable; the vector grows by at most their number.
pub append_refines :
    (b : Buffer) (xs : List ℕ)
    → IsValid b
    → b.writer_index + length xs < max_size
    → (b' : Buffer) × (append b xs ≡ ok b')
      × IsValid b'
      × (content b' ≡ content b ++ xs)
      × (length b'.buffer ≤ length b.buffer + length xs)
append_refines b xs v room =
    let (ran, valid, same, fits, grown) = ensure-ensured b (length xs) v room in
    let (valid', longer, kept) = written_lem (ensured b (length xs) v room) xs valid fits in
    (
      written (ensured b (length xs) v room) xs,
      append_ensured b xs ran valid fits,
      valid',
      longer ∙ ap (λ t. t ++ xs) same,
      omega (arith, kept, grown),
    )

-- `append` of the first `len` bytes behind a pointer is `append` of those bytes.
pub append_data-eq-append :
    (b : Buffer) (xs : List ℕ) (len : ℕ)
    → len ≤ length xs
    → append_data b xs len ≡ append b (take len xs)
unfolding append append_data
append_data-eq-append b xs len h =
    let e : length (take len xs) ≡ len = omega (arith, length-take len xs) in
    let enough : leb len (length xs) ≡ true = ground arith in rw (e, enough)

pub append_data_all : (b : Buffer) (xs : List ℕ) → append_data b xs (length xs) ≡ append b xs
append_data_all b xs =
    append_data-eq-append b xs (length xs) (omega arith) ∙ ap (append b) (take-length xs)

-- `retrieve` of at most the readable bytes drops them from the front; of more, it asserts.
pub retrieve_refines :
    (b : Buffer) (len : ℕ)
    → IsValid b
    → (b' : Buffer) × (retrieve b len
        ≡ (if leb len (length (content b)) then ok b' else fault assertion))
      × (len ≤ length (content b)
          → IsValid b' × (content b' ≡ drop len (content b)) × (b'.buffer ≡ b.buffer))
unfolding retrieve
retrieve_refines b len v = (
  record b { reader_index = b.reader_index + len },
  ground (arith, length-content v, readable_bytes_lem v, v.small, v.within),
  λ h. (
    record {
      header = omega arith;
      ordered = omega (arith, length-content v, readable_bytes_lem v);
      within = v.within;
      small = v.small;
    },
    sym (
        drop-slice len b.reader_index b.writer_index b.buffer
          (omega (arith, length-content v, readable_bytes_lem v))),
    refl,
  ),
)
