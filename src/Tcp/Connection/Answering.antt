-- ===== src/Tcp/Connection/Answering.antt =====
-- Connections whose message callback acts on them: `handle_read` of tcp/TcpConnection.cpp with a callback
-- that takes all the input as a string and sends what `answer` makes of it.
pub mod Same
pub mod Runs
pub mod Fresh
pub mod Tests
use reactor_network_lib.Buffer
use reactor_network_lib.Buffer.{Readv, ReadResult, count, saved_errno, extra_size}
use reactor_network_lib.Tcp.Connection.{
  Connection, Written, send, send_in_loop, write_now, write_later, handle_write, write_out,
  after_write, after_read, took, failed, Bool, Outcome, List, shutdown_in_loop, is_writing,
}
use reactor_network_lib.Tcp.Connection.Traffic.{kernel}
use reactor_network_lib.Common.{
  Bool, Outcome, List, ◌≡◌, ltb, ℕ, ◌>>=◌, false, Option, ok, if◌then◌else◌, true, length, drop,
  arith, ◌∙◌, Bool-cases, not, ◌-◌, Outcome-cases, ◌&&◌, ◌==◌, inl, inr, none, ◌∷◌, ◌<◌, ◌++◌, ◌≤◌,
  [], ◌+◌, Then, Then-all,
}
use reactor_network_lib.Channel.{is_writing}

abbrev pub is_data : ReadResult → Bool
is_data (count n) = ltb 0 n
is_data (saved_errno e) = false

-- `handle_read`, with what the message callback does to the connection.
pub read_with : (Connection → Outcome Connection) → Readv → Connection → Outcome Connection
unfolding after_read
read_with message_callback r c = do
  (n, input) ← Buffer.read_fd c.input_buffer r
  c' ← after_read n (record c { input_buffer = input })
  if is_data n then message_callback c' else ok c'

-- Such a callback, with what the kernel takes at once.
pub reply : (List ℕ → List ℕ) → Option ℕ → Connection → Outcome Connection
reply answer room c = do
  (text, input) ← Buffer.retrieve_as_string c.input_buffer
  send true (answer text) (kernel room (length (answer text))) (record c { input_buffer = input })

pub data Turn : Type 0 where
  reads : List ℕ → Option ℕ → Turn
  fails : ℕ → Turn
  writable : Option ℕ → Turn

module _ (answer : List ℕ → List ℕ) where
  pub run_turn : Turn → Connection → Outcome Connection
  unfolding read_with reply
  run_turn (reads xs room) c = read_with (reply answer room) (Buffer.got xs) c
  run_turn (fails e) c = read_with (reply answer none) (Buffer.failed e) c
  run_turn (writable room) c = handle_write (kernel room (Buffer.readable_bytes c.output_buffer)) c

  pub run_turns : List Turn → Connection → Outcome Connection
  unfolding run_turn
  run_turns [] c = ok c
  run_turns (t ∷ ts) c = do c' ← run_turn t c; run_turns ts c'

  -- The answers to the pieces that came in, end to end.
  abbrev pub answers : List Turn → List ℕ
  answers [] = []
  answers (reads xs _ ∷ ts) = answer xs ++ answers ts
  answers (_ ∷ ts) = answers ts

-- The bytes that came in.
abbrev pub received : List Turn → List ℕ
received [] = []
received (reads xs _ ∷ ts) = xs ++ received ts
received (_ ∷ ts) = received ts

-- What one `readv` can bring: a byte at least, and at most the writable bytes and the array on the stack.
abbrev pub IsPiece : Turn → Connection → Type 0
IsPiece (reads xs _) c =
    (0 < length xs) × (length xs ≤ Buffer.writable_bytes c.input_buffer + extra_size)
IsPiece _ c = Unit {0}

-- Each piece is one that a `readv` can bring when it comes in.
abbrev pub Bounded : (List ℕ → List ℕ) → List Turn → Connection → Type 0
Bounded answer [] c = Unit {0}
Bounded answer (t ∷ ts) c = IsPiece t c × Then (Bounded answer ts) (run_turn answer t c)

-- No piece is larger than the array on the stack.
abbrev pub IsSmall : Turn → Type 0
IsSmall (reads xs _) = (0 < length xs) × (length xs ≤ extra_size)
IsSmall _ = Unit {0}

abbrev pub AllSmall : List Turn → Type 0
AllSmall [] = Unit {0}
AllSmall (t ∷ ts) = IsSmall t × AllSmall ts

pub small_IsPiece : (t : Turn) (c : Connection) → IsSmall t → IsPiece t c
small_IsPiece (reads xs room) c h = (h.0, omega (arith, h.1))
small_IsPiece (fails e) c h = tt
small_IsPiece (writable room) c h = tt

pub small_Bounded :
    (answer : List ℕ → List ℕ) (ts : List Turn) (c : Connection) → AllSmall ts → Bounded answer ts c
small_Bounded answer [] c h = tt
small_Bounded answer (t ∷ ts) c h = (
  small_IsPiece t c h.0,
  Then-all (Bounded answer ts) (run_turn answer t c) (λ c'. small_Bounded answer ts c' h.1),
)
