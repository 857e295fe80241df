-- ===== src/Buffer/Space.antt =====
-- Making room: `make_space` and `ensure_writeable_bytes`.
use reactor_network_lib.Common.{
  ℕ, ◌+◌, ◌-◌, ◌≤◌, ◌<◌, ◌≡◌, List, ◌++◌, arith, length, take, drop, replicate, slice, max_size,
  length-append, length-take, length-drop, length-replicate, take-of_length_le, ok, slice-append,
  ltb, add_size, true, lt→ltb, slice-write, dec_lt, if◌then◌else◌,
}
use reactor_network_lib.Buffer.Inv.{
  IsValid, content, writable_bytes_lem, prependable_bytes_lem, length-content, readable_bytes_lem,
}
use reactor_network_lib.Buffer.{
  copy_to, read_at, resize, Buffer, ok, writable_bytes, prependable_bytes, k_cheap_prepend,
  make_space, ltb, add_size, true, ensure_writeable_bytes,
}

-- A copy that fits writes the bytes at their place.
pub copy_to_fits :
    (xs : List ℕ) (i : ℕ) (v : List ℕ)
    → i + length xs ≤ length v
    → copy_to xs i v ≡ ok (take i v ++ (xs ++ drop (i + length xs) v))
unfolding copy_to
copy_to_fits xs i v h = ground arith

pub length-written :
    (xs : List ℕ) (i : ℕ) (v : List ℕ)
    → i + length xs ≤ length v
    → length (take i v ++ (xs ++ drop (i + length xs) v)) ≡ length v
length-written xs i v h = omega (
  arith,
  length-append (take i v) (xs ++ drop (i + length xs) v),
  length-append xs (drop (i + length xs) v),
  length-take i v,
  length-drop (i + length xs) v,
)

pub read_at_fits :
    (v : List ℕ) (i n : ℕ) → i + n ≤ length v → read_at v i n ≡ ok (take n (drop i v))
unfolding read_at
read_at_fits v i n h = ground arith

length-resize : (n : ℕ) (v : List ℕ) → length (resize n v) ≡ n
unfolding resize
length-resize n v = omega (
  arith,
  length-append (take n v) (replicate (n - length v) 0),
  length-take n v,
  length-replicate {A = ℕ} (n - length v) 0,
)

slice-resize :
    (i j n : ℕ) (v : List ℕ)
    → i ≤ j
    → j ≤ length v
    → length v ≤ n
    → slice i j (resize n v) ≡ slice i j v
unfolding resize
slice-resize i j n v h k l =
    rw (take-of_length_le n v l) (slice-append i j v (replicate (n - length v) 0) h k)

module _ (b : Buffer) (len : ℕ) (v : IsValid b) (room : b.writer_index + len < max_size) where
  make_space_grows :
      writable_bytes b + prependable_bytes b < len + k_cheap_prepend
      → make_space b len ≡ ok (record b { buffer = resize (len + b.writer_index) b.buffer })
  unfolding make_space
  make_space_grows tight =
      let test : ltb (add_size (writable_bytes b) (prependable_bytes b))
            (add_size len k_cheap_prepend)
          ≡ true =
        lt→ltb _ _ (omega (arith, writable_bytes_lem v, prependable_bytes_lem b)) in
      let size : add_size len b.writer_index ≡ len + b.writer_index = omega arith in rw (test, size)

  -- Growing the vector.
  pub grow_lem :
      writable_bytes b < len
      → let b' : Buffer = record b { buffer = resize (len + b.writer_index) b.buffer } in
        IsValid b'
        × (content b' ≡ content b)
        × (writable_bytes b' ≡ len)
        × (length b'.buffer ≤ length b.buffer + len)
  unfolding writable_bytes
  grow_lem short =
      let size = length-resize (len + b.writer_index) b.buffer in
      (
        record {
          header = v.header;
          ordered = v.ordered;
          within = omega (arith, size);
          small = omega (arith, size);
        },
        slice-resize b.reader_index b.writer_index (len + b.writer_index) b.buffer v.ordered
            v.within (omega (arith, writable_bytes_lem v)),
        omega (arith, size),
        omega (arith, size, v.within),
      )

  -- The buffer with its readable bytes moved to the front.
  abbrev pub moved : Buffer
  moved = record {
    buffer =
        take k_cheap_prepend b.buffer
        ++ (content b ++ drop (k_cheap_prepend + length (content b)) b.buffer);
    reader_index = k_cheap_prepend;
    writer_index = k_cheap_prepend + length (content b);
  }

  make_space_moves :
      writable_bytes b < len
      → len + k_cheap_prepend ≤ writable_bytes b + prependable_bytes b
      → make_space b len ≡ ok moved
  unfolding make_space
  make_space_moves short loose = ground (arith, length-content v)

  pub moved_lem :
      writable_bytes b < len
      → len + k_cheap_prepend ≤ writable_bytes b + prependable_bytes b
      → IsValid moved
        × (content moved ≡ content b)
        × (len ≤ writable_bytes moved)
        × (length moved.buffer ≡ length b.buffer)
  moved_lem short loose =
      let fits : k_cheap_prepend + length (content b) ≤ length b.buffer = omega (
        arith,
        length-content v,
        readable_bytes_lem v,
        writable_bytes_lem v,
        prependable_bytes_lem b,
      ) in
      let size = length-written (content b) k_cheap_prepend b.buffer fits in
      let valid : IsValid moved = record {
        header = omega arith;
        ordered = omega arith;
        within = omega (arith, size);
        small = omega (arith, size, v.small);
      } in
      (
        valid,
        slice-write k_cheap_prepend k_cheap_prepend b.buffer (content b)
            (drop (k_cheap_prepend + length (content b)) b.buffer) (omega arith) (omega arith),
        omega (
          arith,
          size,
          writable_bytes_lem valid,
          length-content v,
          readable_bytes_lem v,
          writable_bytes_lem v,
          prependable_bytes_lem b,
        ),
        size,
      )

  -- What `ensure_writeable_bytes` leaves: the buffer itself, the moved one or a longer one.
  abbrev pub ensured : Buffer
  ensured =
      if ltb (writable_bytes b) len
      then if ltb (writable_bytes b + prependable_bytes b) (len + k_cheap_prepend)
        then record b { buffer = resize (len + b.writer_index) b.buffer }
        else moved
      else b

  pub ensure-ensured :
      (ensure_writeable_bytes b len ≡ ok ensured)
      × IsValid ensured
      × (content ensured ≡ content b)
      × (len ≤ writable_bytes ensured)
      × (length ensured.buffer ≤ length b.buffer + len)
  unfolding ensure_writeable_bytes
  ensure-ensured = elim (dec_lt (writable_bytes b) len) [
    | no fits ↦ ground arith
    | yes short ↦ elim (dec_lt (writable_bytes b + prependable_bytes b) (len + k_cheap_prepend)) [
      | yes tight ↦ ground (arith, make_space_grows tight, grow_lem short)
      | no loose ↦ ground (arith, make_space_moves short, moved_lem short)
    ]
  ]
