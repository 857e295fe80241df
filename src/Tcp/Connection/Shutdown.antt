-- ===== src/Tcp/Connection/Shutdown.antt =====
-- A shutdown while bytes wait in the output buffer.
use reactor_network_lib.Buffer
use reactor_network_lib.Buffer.Inv.{IsValid, content, length-content}
use reactor_network_lib.Tcp.Connection.Drain.{drained, after_write-drained, read_pending}
use reactor_network_lib.Common.{
  ℕ, List, ◌≡◌, take, true, ◌∷◌, ◌<◌, if◌then◌else◌, length, ◌≤◌, suc, ◌==◌, some, ok, [], ◌++◌,
  arith, ltb, ◌-◌, sym, ◌∙◌, ap, length-drop, refl, append_assoc, append-nil,
}
use reactor_network_lib.Tcp.Connection.{
  shutdown_in_loop, shutdown_loop, Connection, handle_write, write_out, Effect, wrote, connected,
  is_writing, updates_channel, took, queues_write_complete, shuts_write, disconnecting, emit,
}
use reactor_network_lib.Channel.{is_writing, disable_writing}
use reactor_network_lib.Buffer.Refine.{retrieve_refines}

-- What `handle_write` does about a write of `n` bytes to a connection that is shutting down.
abbrev pub shutdown_effects : ℕ → Connection → List Effect
shutdown_effects n c =
    let pending = content c.output_buffer in
    wrote (take n pending)
    ∷ (if length pending == n
        then updates_channel (disable_writing c.channel).events
          ∷ ((if c.write_complete_callback then queues_write_complete ∷ [] else [])
              ++ shuts_write ∷ [])
        else [])

drained_effects :
    (b : Buffer.Buffer) (c : Connection)
    → c.state ≡ disconnecting
    → is_writing c.channel ≡ true
    → (drained b c).effects
      ≡ c.effects
        ++ (if Buffer.readable_bytes b == 0
            then updates_channel (disable_writing c.channel).events
              ∷ ((if c.write_complete_callback then queues_write_complete ∷ [] else [])
                  ++ shuts_write ∷ [])
            else [])
unfolding drained shutdown_in_loop disable_writing is_writing
drained_effects b c h writing = grind (arith, append_assoc, append-nil)

-- A `shutdown`, in the loop, of a connected connection that is writing leaves the socket alone.
-- The next writable event, if it takes some of the waiting bytes of a valid output buffer, writes
-- them from the front; where it takes the last of them, and only then, it disables writing and
-- closes the write side behind the last byte.
pub shutdown_waits :
    (c : Connection) (fuel n : ℕ)
    → IsValid c.output_buffer
    → c.state ≡ connected
    → is_writing c.channel ≡ true
    → 0 < n
    → n ≤ Buffer.readable_bytes c.output_buffer
    → (c' : Connection) × (c'' : Connection) × (shutdown_loop (suc (suc fuel)) true c ≡ some c')
      × (c'.effects ≡ c.effects)
      × (handle_write (took n) c' ≡ ok c'')
      × (c''.effects ≡ c.effects ++ shutdown_effects n c)
unfolding shutdown_loop shutdown_in_loop handle_write write_out
shutdown_waits c fuel n v h writing some_taken within =
    let c' : Connection = record c { state = disconnecting } in
    let front = emit (wrote (take n (content c.output_buffer))) c' in
    let (b, ran, left) = retrieve_refines c.output_buffer n v in
    let fits : n ≤ length (content c.output_buffer) = omega (arith, length-content v) in
    let (valid, same, size) = left fits in
    let retrieved : Buffer.retrieve c.output_buffer n ≡ ok b = ground arith in
    let test : ltb 0 n ≡ true = ground arith in
    let readable : Buffer.readable_bytes b ≡ length (content c.output_buffer) - n =
      sym (length-content valid) ∙ ap length same ∙ length-drop n (content c.output_buffer) in
    let same_test : (Buffer.readable_bytes b == 0) ≡ (length (content c.output_buffer) == n) =
      ground (arith, readable, fits) in
    (
      c',
      drained b front,
      ground arith,
      refl,
      rw (writing, read_pending n c.output_buffer v within, test)
          (after_write-drained n b front retrieved),
      rw (drained_effects b front refl writing)
          (append_assoc c.effects _ _ ∙ ap (λ t. c.effects ++ t) (rw same_test refl)),
    )
