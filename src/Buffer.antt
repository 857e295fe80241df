-- ===== src/Buffer.antt =====
-- buffer/Buffer.hpp and buffer/Buffer.cpp: a vector of bytes with a reader and a writer index.
-- A pointer into the vector is its offset. Each method that changes the buffer returns the new one.
pub mod Inv
pub mod Space
pub mod Refine
pub mod Receive
pub mod Run
pub mod Faults
pub mod Fresh
pub mod Equality
pub mod Tests
use reactor_network_lib.Common.{
  ℕ, ◌+◌, ◌-◌, List, [], ◌∷◌, ◌++◌, Bool, true, false, ◌&&◌, Outcome, ok, ◌>>=◌, ◌>>◌, assert,
  defined, ltb, leb, ◌==◌, if◌then◌else◌, length, take, drop, replicate, add_size, sub_size,
}

-- A byte is only moved, so it is any number.
pub record Buffer : Type 0 where
  pub buffer : List ℕ
  pub reader_index : ℕ
  pub writer_index : ℕ

abbrev pub k_cheap_prepend : ℕ
k_cheap_prepend = 8

abbrev pub k_initial_size : ℕ
k_initial_size = 1024

-- The size of the array on the stack of `read_fd`.
abbrev pub extra_size : ℕ
extra_size = 65536

-- `std::copy` of `xs` to the offset `i` of a vector: undefined past its end.
unfoldable pub copy_to : List ℕ → ℕ → List ℕ → Outcome (List ℕ)
copy_to xs i v = do
  defined (leb (i + length xs) (length v))
  ok (take i v ++ (xs ++ drop (i + length xs) v))

-- The `n` bytes from the offset `i` on: undefined past the end.
pub read_at : List ℕ → ℕ → ℕ → Outcome (List ℕ)
read_at v i n = do defined (leb (i + n) (length v)); ok (take n (drop i v))

-- `std::vector::resize`: cut, or filled up with zeros.
pub resize : ℕ → List ℕ → List ℕ
resize n v = take n v ++ replicate (n - length v) 0

pub readable_bytes : Buffer → ℕ
readable_bytes b = sub_size b.writer_index b.reader_index

unfoldable pub writable_bytes : Buffer → ℕ
writable_bytes b = sub_size (length b.buffer) b.writer_index

pub prependable_bytes : Buffer → ℕ
prependable_bytes b = b.reader_index

pub peek : Buffer → ℕ
peek b = b.reader_index

pub begin_write : Buffer → ℕ
begin_write b = b.writer_index

-- The constructor, with its three assertions.
unfoldable pub create : Outcome Buffer
unfolding readable_bytes writable_bytes prependable_bytes
create = do
  let b : Buffer = record {
    buffer = replicate (k_cheap_prepend + k_initial_size) 0;
    reader_index = k_cheap_prepend;
    writer_index = k_cheap_prepend;
  }
  assert (readable_bytes b == 0)
  assert (writable_bytes b == k_initial_size)
  assert (prependable_bytes b == k_cheap_prepend)
  ok b

-- Both buffers after `a.swap(b)`.
pub swap : Buffer → Buffer → Buffer × Buffer
swap a b = (
  record { buffer = b.buffer; reader_index = b.reader_index; writer_index = b.writer_index },
  record { buffer = a.buffer; reader_index = a.reader_index; writer_index = a.writer_index },
)

pub retrieve : Buffer → ℕ → Outcome Buffer
unfolding readable_bytes
retrieve b len = do
  assert (leb len (readable_bytes b))
  ok (record b { reader_index = add_size b.reader_index len })

pub retrieve_until : Buffer → ℕ → Outcome Buffer
unfolding retrieve peek begin_write
retrieve_until b end = do
  assert (leb (peek b) end)
  assert (leb end (begin_write b))
  retrieve b (end - peek b)

pub retrieve_all : Buffer → Buffer
retrieve_all b = record b { reader_index = k_cheap_prepend; writer_index = k_cheap_prepend }

pub retrieve_as_string : Buffer → Outcome (List ℕ × Buffer)
unfolding peek retrieve_all
retrieve_as_string b = do
  str ← read_at b.buffer (peek b) (readable_bytes b)
  ok (str, retrieve_all b)

unfoldable pub has_written : Buffer → ℕ → Buffer
has_written b len = record b { writer_index = add_size b.writer_index len }

pub make_space : Buffer → ℕ → Outcome Buffer
unfolding readable_bytes writable_bytes prependable_bytes copy_to read_at resize
make_space b len =
    if ltb (add_size (writable_bytes b) (prependable_bytes b)) (add_size len k_cheap_prepend)
    then ok (record b { buffer = resize (add_size len b.writer_index) b.buffer })
    else do
      assert (ltb k_cheap_prepend b.reader_index)
      let readable = readable_bytes b
      defined (leb b.reader_index b.writer_index)
      moved ← read_at b.buffer b.reader_index (b.writer_index - b.reader_index)
      v ← copy_to moved k_cheap_prepend b.buffer
      let b' : Buffer = record {
        buffer = v;
        reader_index = k_cheap_prepend;
        writer_index = add_size k_cheap_prepend readable;
      }
      assert (readable == readable_bytes b')
      ok b'

pub ensure_writeable_bytes : Buffer → ℕ → Outcome Buffer
unfolding writable_bytes make_space
ensure_writeable_bytes b len = do
  b' ← if ltb (writable_bytes b) len then make_space b len else ok b
  assert (leb len (writable_bytes b'))
  ok b'

-- `append(const void* data, size_t len)`
pub append_data : Buffer → List ℕ → ℕ → Outcome Buffer
unfolding begin_write has_written
append_data b xs len = do
  b' ← ensure_writeable_bytes b len
  defined (leb len (length xs))
  v ← copy_to (take len xs) (begin_write b') b'.buffer
  ok (has_written (record b' { buffer = v }) len)

-- `append(std::string_view str)`
pub append : Buffer → List ℕ → Outcome Buffer
unfolding begin_write has_written
append b str = do
  b' ← ensure_writeable_bytes b (length str)
  v ← copy_to str (begin_write b') b'.buffer
  ok (has_written (record b' { buffer = v }) (length str))

-- The target of the copy is `begin_write() + reader_index_`, as the source has it.
pub prepend : Buffer → List ℕ → ℕ → Outcome Buffer
unfolding prependable_bytes begin_write
prepend b xs len = do
  assert (leb len (prependable_bytes b))
  let reader = sub_size b.reader_index len
  defined (leb len (length xs))
  v ← copy_to (take len xs) (begin_write b + reader) b.buffer
  ok (record b { buffer = v; reader_index = reader })

-- Only the vector is exchanged: both indices stay as they are.
pub shrink : Buffer → ℕ → Outcome Buffer
unfolding peek
shrink b reserve = do
  let fresh = replicate (add_size (add_size k_cheap_prepend (readable_bytes b)) reserve) 0
  xs ← read_at b.buffer (peek b) (readable_bytes b)
  v ← copy_to xs k_cheap_prepend fresh
  ok (record b { buffer = v })

-- What `readv` returns: an errno, or the bytes that it read.
pub data Readv : Type 0 where
  failed : ℕ → Readv
  got : List ℕ → Readv

-- What `read_fd` returns: the saved errno, or the count.
pub data ReadResult : Type 0 where
  saved_errno : ℕ → ReadResult
  count : ℕ → ReadResult

-- `readv` fills the writable bytes first, then the array on the stack.
unfoldable pub read_fd : Buffer → Readv → Outcome (ReadResult × Buffer)
unfolding has_written
read_fd b (failed errno) = ok (saved_errno errno, b)
read_fd b (got xs) = do
  let writable = writable_bytes b
  v ← copy_to (take writable xs) b.writer_index b.buffer
  let b' : Buffer = record b { buffer = v }
  let n = length xs
  if leb n writable then ok (count n, has_written b' n) else do
    defined (leb (n - writable) extra_size)
    b'' ← append_data (record b' { writer_index = length v }) (drop writable xs) (n - writable)
    ok (count n, b'')

pub same_bytes : List ℕ → List ℕ → Bool
same_bytes [] [] = true
same_bytes (x ∷ xs) (y ∷ ys) = (x == y) && same_bytes xs ys
same_bytes _ _ = false

-- `operator==` compares the vectors, and no index.
pub equals : Buffer → Buffer → Bool
unfolding same_bytes
equals a b = same_bytes a.buffer b.buffer
