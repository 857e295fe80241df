-- ===== src/Tcp/Connection/Stream.antt =====
-- The bytes of a connection: those that `::write` took, then those that wait in the output buffer;
-- and what `send_in_loop` adds to them.
use reactor_network_lib.Buffer
use reactor_network_lib.Common.{
  List, ℕ, ◌∷◌, length, ◌++◌, ◌≤◌, ◌≡◌, [], ap, take, ◌+◌, ◌∙◌, arith, ◌<◌, sym, append-nil,
  max_size, append_assoc, ok, drop, refl, dec_lt, length-drop, ◌-◌, take-of_length_le,
  if◌then◌else◌, not, drop_all, Bool-cases, ◌&&◌, ◌==◌, inl, inr, take-append-drop,
}
use reactor_network_lib.Tcp.Connection.{
  Connection, Written, Effect, write_now, write_later, took, wrote, updates_channel, queues_send,
  tells_connection, tells_message, removes_channel, shuts_write, sets_tcp_no_delay, closes_socket,
  queues_shutdown, queues_write_complete, tells_close, logs_error, is_writing, with_channel,
  send_in_loop,
}
use reactor_network_lib.Buffer.Inv.{content, IsValid, length-content}
use reactor_network_lib.Buffer.Refine.{append_data-eq-append, append_refines}
use reactor_network_lib.Tcp.Connection.{failed}
use reactor_network_lib.Channel.{is_writing, enable_writing}

length-zero : (xs : List ℕ) → length xs ≡ 0 → xs ≡ []
length-zero [] e = refl
length-zero (x ∷ xs) e = absurd (omega arith)

-- The bytes that went out, in their order.
unfoldable pub sent : List Effect → List ℕ
sent [] = []
sent (wrote xs ∷ es) = xs ++ sent es
sent (_ ∷ es) = sent es

abbrev pub stream : Connection → List ℕ
stream c = sent c.effects ++ content c.output_buffer

-- `::write` takes at most what it is given.
abbrev pub Takes : Written → ℕ → Type 0
Takes (took n) size = n ≤ size
Takes (failed _) size = Unit {0}

sent-++ : (es fs : List Effect) → sent (es ++ fs) ≡ sent es ++ sent fs
unfolding sent
sent-++ [] fs = refl
sent-++ (wrote xs ∷ es) fs =
    ap (λ t. xs ++ t) (sent-++ es fs) ∙ sym (append_assoc xs (sent es) (sent fs))
sent-++ (updates_channel _ ∷ es) fs = sent-++ es fs
sent-++ (removes_channel ∷ es) fs = sent-++ es fs
sent-++ (shuts_write ∷ es) fs = sent-++ es fs
sent-++ (sets_tcp_no_delay _ ∷ es) fs = sent-++ es fs
sent-++ (closes_socket ∷ es) fs = sent-++ es fs
sent-++ (queues_send _ ∷ es) fs = sent-++ es fs
sent-++ (queues_shutdown ∷ es) fs = sent-++ es fs
sent-++ (queues_write_complete ∷ es) fs = sent-++ es fs
sent-++ (tells_connection _ ∷ es) fs = sent-++ es fs
sent-++ (tells_message _ ∷ es) fs = sent-++ es fs
sent-++ (tells_close ∷ es) fs = sent-++ es fs
sent-++ (logs_error ∷ es) fs = sent-++ es fs

pub sent-emit : (es : List Effect) (e : Effect) → sent (es ++ e ∷ []) ≡ sent es ++ sent (e ∷ [])
sent-emit es e = sent-++ es (e ∷ [])

-- The direct attempt takes a front of the message, and leaves the output buffer alone.
write_now_lem :
    (message : List ℕ) (w : Written) (c : Connection)
    → Takes w (length message)
    → ((write_now message w c).0 ≤ length message)
      × (sent (write_now message w c).1.effects
          ≡ sent c.effects ++ take (write_now message w c).0 message)
      × ((write_now message w c).1.output_buffer ≡ c.output_buffer)
      × ((write_now message w c).1.channel ≡ c.channel)
unfolding write_now sent
write_now_lem message (took n) c h = grind (arith, sent-emit, append-nil)
write_now_lem message (failed would_block) c h = grind (arith, sent-emit, append-nil)

-- The connection with this output buffer, writing enabled.
abbrev kept : Buffer.Buffer → Connection → Connection
kept b c =
    let c' : Connection = record c { output_buffer = b } in
    if not (is_writing c.channel) then with_channel (enable_writing c.channel) c' else c'

kept_lem :
    (b : Buffer.Buffer) (c : Connection)
    → ((kept b c).output_buffer ≡ b) × (sent (kept b c).effects ≡ sent c.effects)
unfolding sent
kept_lem b c = grind (arith, sent-emit, append-nil)

-- The rest of the message goes behind what waits.
write_later_lem :
    (message : List ℕ) (n : ℕ) (c : Connection)
    → IsValid c.output_buffer
    → n ≤ length message
    → length c.output_buffer.buffer + length message < max_size
    → (c' : Connection) × (write_later message n c ≡ ok c')
      × IsValid c'.output_buffer
      × (sent c'.effects ≡ sent c.effects)
      × (content c'.output_buffer ≡ content c.output_buffer ++ drop n message)
      × (length c'.output_buffer.buffer ≤ length c.output_buffer.buffer + length message)
unfolding write_later sent
write_later_lem message n c v h room = elim (dec_lt n (length message)) [
  | yes more ↦
      let rest = length-drop n message in
      let all : take (length message - n) (drop n message) ≡ drop n message =
        take-of_length_le (length message - n) (drop n message) (omega (arith, rest)) in
      let (b, ran, valid, same, size) =
        append_refines c.output_buffer (drop n message) v (omega (arith, rest, v.within)) in
      let appended : Buffer.append_data c.output_buffer (drop n message) (length message - n)
          ≡ ok b =
        append_data-eq-append c.output_buffer (drop n message) (length message - n)
          (omega (arith, rest))
        ∙ ap (Buffer.append c.output_buffer) all
        ∙ ran in
      let (out, out_sent) = kept_lem b c in
      (
        kept b c,
        ground (arith, appended),
        rw out valid,
        out_sent,
        rw out same,
        rw out (omega (arith, size, rest)),
      )
  | no done ↦ (
    c,
    ground arith,
    v,
    refl,
    sym (ap (λ t. content c.output_buffer ++ t) (drop_all message n (omega arith)) ∙ append-nil _),
    omega arith,
  )
]

content-nil : {b : Buffer.Buffer} → IsValid b → Buffer.readable_bytes b ≡ 0 → content b ≡ []
content-nil v e = length-zero _ (omega (arith, length-content v, e))

-- After the direct attempt on an empty output buffer.
write_rest :
    (message : List ℕ) (n : ℕ) (c c1 : Connection)
    → IsValid c.output_buffer
    → n ≤ length message
    → length c.output_buffer.buffer + length message < max_size
    → content c.output_buffer ≡ []
    → sent c1.effects ≡ sent c.effects ++ take n message
    → c1.output_buffer ≡ c.output_buffer
    → (c' : Connection) × (write_later message n c1 ≡ ok c')
      × IsValid c'.output_buffer
      × (stream c' ≡ stream c ++ message)
      × (length c'.output_buffer.buffer ≤ length c.output_buffer.buffer + length message)
write_rest message n c c1 v small room empty out same_out =
    let (c', ran, valid, same, more, size) =
      write_later_lem message n c1 (rw same_out v) small (rw same_out room) in
    let bound : length c1.output_buffer.buffer ≡ length c.output_buffer.buffer =
      ap (λ b. length b.buffer) same_out in
    let before : content c1.output_buffer ≡ [] = ap content same_out ∙ empty in
    (
      c',
      ran,
      valid,
      rw (same, more, before, empty, out, append-nil (sent c.effects))
          (append_assoc (sent c.effects) (take n message) (drop n message)
            ∙ ap (λ t. sent c.effects ++ t) (take-append-drop n message)),
      omega (arith, size, bound),
    )

-- From a valid output buffer with room for the message below 2^63: what `send_in_loop` is given
-- goes out at once or waits, whole and in order, whatever part of it `::write` takes; nothing
-- faults and the buffer stays valid.
pub send_in_loop_lem :
    (message : List ℕ) (w : Written) (c : Connection)
    → IsValid c.output_buffer
    → Takes w (length message)
    → length c.output_buffer.buffer + length message < max_size
    → (c' : Connection) × (send_in_loop message w c ≡ ok c')
      × IsValid c'.output_buffer
      × (stream c' ≡ stream c ++ message)
      × (length c'.output_buffer.buffer ≤ length c.output_buffer.buffer + length message)
unfolding send_in_loop
send_in_loop_lem message w c v h room =
    elim (Bool-cases (not (is_writing c.channel) && (Buffer.readable_bytes c.output_buffer == 0))) [
      | inl now ↦
          let empty : content c.output_buffer ≡ [] = content-nil v (ground arith) in
          let (small, out, same_out, _) = write_now_lem message w c h in
          let (c', ran, valid, whole, size) =
            write_rest message (write_now message w c).0 c (write_now message w c).1 v small room
              empty out same_out in
          (c', rw now ran, valid, whole, size)
      | inr later ↦
          let (c', ran, valid, same, more, size) =
            write_later_lem message 0 c v (omega arith) room in
          (
            c',
            rw later ran,
            valid,
            rw (same, more) (sym (append_assoc (sent c.effects) (content c.output_buffer) message)),
            size,
          )
    ]
