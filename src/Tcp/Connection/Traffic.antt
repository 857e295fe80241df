-- ===== src/Tcp/Connection/Traffic.antt =====
-- A connection under calls of `send` and writable events, in any order.
use reactor_network_lib.Common.{
  List, Option, ℕ, Outcome, length, ◌++◌, true, ok, some, ◌+◌, [], ◌∷◌, arith, ◌<◌, min, max_size,
  ◌>>=◌, none, ◌≡◌, sym, append-nil, length-append, ◌∙◌, ap, append_assoc, refl,
}
use reactor_network_lib.Buffer
use reactor_network_lib.Buffer.Inv.{IsValid}
use reactor_network_lib.Tcp.Connection.{
  failed, Connection, Written, send_in_loop, took, handle_write,
}
use reactor_network_lib.Tcp.Connection.Stream.{stream, Takes, send_in_loop_lem}
use reactor_network_lib.Tcp.Connection.Drain.{handle_write_lem}

-- One `::write`: the kernel takes up to this many bytes, or none at all and would block.
pub kernel : Option ℕ → ℕ → Written
kernel none size = failed true
kernel (some room) size = took (min room size)

pub data Turn : Type 0 where
  sends : List ℕ → Option ℕ → Turn
  writable : Option ℕ → Turn

pub run_turn : Turn → Connection → Outcome Connection
run_turn (sends message room) c = send_in_loop message (kernel room (length message)) c
run_turn (writable room) c = handle_write (kernel room (Buffer.readable_bytes c.output_buffer)) c

pub run_turns : List Turn → Connection → Outcome Connection
run_turns [] c = ok c
run_turns (t ∷ ts) c = do c' ← run_turn t c; run_turns ts c'

-- The messages of a run, end to end.
abbrev pub messages : List Turn → List ℕ
messages [] = []
messages (sends message _ ∷ ts) = message ++ messages ts
messages (writable _ ∷ ts) = messages ts

pub Takes-kernel : (room : Option ℕ) (size : ℕ) → Takes (kernel room size) size
unfolding kernel
Takes-kernel none size = tt
Takes-kernel (some room) size = omega arith

-- From a valid output buffer, with messages that fit into 2^63 bytes together with it: under any
-- interleaving of sends and writable events, partial writes and full sockets included, no handler
-- faults, the buffer stays valid, and the bytes that went out, then those that wait, are the
-- messages in the order in which they were sent, behind what was there before.
pub run_turns_lem :
    (ts : List Turn) (c : Connection)
    → IsValid c.output_buffer
    → length c.output_buffer.buffer + length (messages ts) < max_size
    → (c' : Connection) × (run_turns ts c ≡ ok c')
      × IsValid c'.output_buffer
      × (stream c' ≡ stream c ++ messages ts)
unfolding run_turns run_turn
run_turns_lem [] c v room = (c, refl, v, sym (append-nil _))
run_turns_lem (sends message k ∷ ts) c v room =
    let size = length-append message (messages ts) in
    let (c', ran, valid, same, grown) =
      send_in_loop_lem message (kernel k (length message)) c v (Takes-kernel k (length message))
        (omega (arith, size)) in
    let (c'', runs, valid', same') = run_turns_lem ts c' valid (omega (arith, grown, size)) in
    (
      c'',
      rw ran runs,
      valid',
      same' ∙ ap (λ t. t ++ messages ts) same ∙ append_assoc (stream c) message (messages ts),
    )
run_turns_lem (writable k ∷ ts) c v room =
    let pending = Buffer.readable_bytes c.output_buffer in
    let (c', ran, valid, same, kept) =
      handle_write_lem (kernel k pending) c v (Takes-kernel k pending) in
    let (c'', runs, valid', same') = run_turns_lem ts c' valid (omega (arith, kept)) in
    (c'', rw ran runs, valid', same' ∙ ap (λ t. t ++ messages ts) same)
