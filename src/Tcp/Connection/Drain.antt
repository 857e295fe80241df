-- ===== src/Tcp/Connection/Drain.antt =====
-- What `handle_write` takes from the output buffer.
use reactor_network_lib.Buffer
use reactor_network_lib.Common.{
  List, ℕ, length, ◌++◌, ◌≤◌, ◌≡◌, [], ap, take, ◌∙◌, arith, sym, append-nil, append_assoc, ok,
  drop, refl, ◌-◌, if◌then◌else◌, Bool-cases, ◌==◌, inl, inr, take-append-drop, suc, zero,
  take-take_le, ltb, true,
}
use reactor_network_lib.Tcp.Connection.{
  Connection, Written, took, wrote, queues_write_complete, logs_error, is_writing, with_channel,
  after_write, shutdown_in_loop, handle_write, emit, write_out, is_disconnecting,
}
use reactor_network_lib.Buffer.Inv.{content, IsValid, length-content, peek_lem, readable_bytes_lem}
use reactor_network_lib.Buffer.Refine.{retrieve_refines}
use reactor_network_lib.Tcp.Connection.{failed}
use reactor_network_lib.Channel.{is_writing, disable_writing}
use reactor_network_lib.Buffer.Space.{read_at_fits}
use reactor_network_lib.Tcp.Connection.Stream.{sent, stream, sent-emit, Takes}

-- The connection with this output buffer, and what follows if it is empty.
unfoldable pub drained : Buffer.Buffer → Connection → Connection
drained b c =
    let c' : Connection = record c { output_buffer = b } in
    if Buffer.readable_bytes b == 0
    then (let c1 = with_channel (disable_writing c'.channel) c' in
        let c2 = if c1.write_complete_callback then emit queues_write_complete c1 else c1 in
        if is_disconnecting c2.state then shutdown_in_loop c2 else c2)
    else c'

shutdown_in_loop_lem :
    (c : Connection)
    → (sent (shutdown_in_loop c).effects ≡ sent c.effects)
      × ((shutdown_in_loop c).output_buffer ≡ c.output_buffer)
unfolding shutdown_in_loop sent
shutdown_in_loop_lem c = grind (arith, sent-emit, append-nil)

drained_lem :
    (b : Buffer.Buffer) (c : Connection)
    → (sent (drained b c).effects ≡ sent c.effects) × ((drained b c).output_buffer ≡ b)
unfolding drained sent
drained_lem b c = grind (arith, sent-emit, append-nil, shutdown_in_loop_lem)

pub after_write-drained :
    (n : ℕ) (b : Buffer.Buffer) (c : Connection)
    → Buffer.retrieve c.output_buffer n ≡ ok b
    → after_write n c ≡ ok (drained b c)
unfolding after_write drained
after_write-drained n b c e = ground arith

-- What the kernel took leaves the front of the output buffer.
after_write_lem :
    (n : ℕ) (c : Connection)
    → IsValid c.output_buffer
    → n ≤ Buffer.readable_bytes c.output_buffer
    → (c' : Connection) × (after_write n c ≡ ok c')
      × IsValid c'.output_buffer
      × (sent c'.effects ≡ sent c.effects)
      × (content c'.output_buffer ≡ drop n (content c.output_buffer))
      × (length c'.output_buffer.buffer ≡ length c.output_buffer.buffer)
unfolding after_write sent
after_write_lem n c v h =
    let (b, ran, left) = retrieve_refines c.output_buffer n v in
    let (valid, same, size) = left (omega (arith, length-content v)) in
    let retrieved : Buffer.retrieve c.output_buffer n ≡ ok b = ground (arith, length-content v) in
    let (quiet, out) = drained_lem b c in
    (
      drained b c,
      after_write-drained n b c retrieved,
      rw out valid,
      quiet,
      rw out same,
      rw out (ap length size),
    )

pub read_pending :
    (n : ℕ) (b : Buffer.Buffer)
    → IsValid b
    → n ≤ Buffer.readable_bytes b
    → Buffer.read_at b.buffer (Buffer.peek b) n ≡ ok (take n (content b))
read_pending n b v h = rw (peek_lem b) (
    read_at_fits b.buffer b.reader_index n
      (omega (arith, readable_bytes_lem v, v.ordered, v.within))
    ∙ ap ok (
        sym (
          take-take_le n (b.writer_index - b.reader_index) (drop b.reader_index b.buffer)
            (omega (arith, readable_bytes_lem v)))))

-- Bytes that move from what waits to what went out.
moved : (xs ys : List ℕ) (n : ℕ) → (xs ++ (take n ys ++ [])) ++ drop n ys ≡ xs ++ ys
moved xs ys n =
    rw (append-nil (take n ys))
      (append_assoc xs (take n ys) (drop n ys) ∙ ap (λ t. xs ++ t) (take-append-drop n ys))

write_out_took :
    (n : ℕ) (c : Connection)
    → IsValid c.output_buffer
    → n ≤ Buffer.readable_bytes c.output_buffer
    → (c' : Connection) × (write_out (took n) c ≡ ok c')
      × IsValid c'.output_buffer
      × (stream c' ≡ stream c)
      × (length c'.output_buffer.buffer ≡ length c.output_buffer.buffer)
unfolding write_out sent
write_out_took zero c v h = (
  emit logs_error c,
  rw (read_pending zero c.output_buffer v h) refl,
  v,
  grind (arith, sent-emit, append-nil),
  refl,
)
write_out_took (suc n) c v h =
    let front = take (suc n) (content c.output_buffer) in
    let test : ltb 0 (suc n) ≡ true = ground arith in
    let (c', ran, valid, same, rest, size) = after_write_lem (suc n) (emit (wrote front) c) v h in
    (
      c',
      rw (read_pending (suc n) c.output_buffer v h, test) ran,
      valid,
      rw (same, rest)
          (rw (sent-emit c.effects (wrote front))
            (moved (sent c.effects) (content c.output_buffer) (suc n))),
      size,
    )

write_out_lem :
    (w : Written) (c : Connection)
    → IsValid c.output_buffer
    → Takes w (Buffer.readable_bytes c.output_buffer)
    → (c' : Connection) × (write_out w c ≡ ok c')
      × IsValid c'.output_buffer
      × (stream c' ≡ stream c)
      × (length c'.output_buffer.buffer ≡ length c.output_buffer.buffer)
unfolding write_out sent
write_out_lem (took n) c v h = write_out_took n c v h
write_out_lem (failed would_block) c v h =
    (emit logs_error c, refl, v, grind (arith, sent-emit, append-nil), refl)

-- From a valid output buffer, whatever part of the readable bytes `::write` takes, `handle_write`
-- does not fault, keeps the buffer valid and moves that part from the front of what waits to the
-- end of what went out: no byte is lost, repeated or reordered.
pub handle_write_lem :
    (w : Written) (c : Connection)
    → IsValid c.output_buffer
    → Takes w (Buffer.readable_bytes c.output_buffer)
    → (c' : Connection) × (handle_write w c ≡ ok c')
      × IsValid c'.output_buffer
      × (stream c' ≡ stream c)
      × (length c'.output_buffer.buffer ≡ length c.output_buffer.buffer)
unfolding handle_write write_out
handle_write_lem w c v h = elim (Bool-cases (is_writing c.channel)) [
  | inl writing ↦
      let (c', ran, valid, same, size) = write_out_lem w c v h in
      (c', rw writing ran, valid, same, size)
  | inr quiet ↦ (c, rw quiet refl, v, refl, refl)
]
