-- ===== src/Tcp/Connection/Answering/Runs.antt =====
-- A connection that answers what comes in, under readable and writable events in any order.
use reactor_network_lib.Buffer
use reactor_network_lib.Buffer.{count, extra_size}
use reactor_network_lib.Buffer.Inv.{IsValid, content}
use reactor_network_lib.Buffer.Receive.{read_fd_refines, retrieve_as_string_refines}
use reactor_network_lib.Tcp.Connection.{
  is_connected, Connection, connected, send, after_read, emit, tells_message, handle_error,
  logs_error, ℕ, List,
}
use reactor_network_lib.Tcp.Connection.Stream.{stream, sent, sent-emit, send_in_loop_lem}
use reactor_network_lib.Tcp.Connection.Drain.{handle_write_lem}
use reactor_network_lib.Tcp.Connection.Traffic.{kernel, Takes-kernel}
use reactor_network_lib.Tcp.Connection.Answering.{
  read_with, reply, Turn, reads, fails, writable, run_turn, run_turns, answers, received, Bounded,
  ◌≡◌,
}
use reactor_network_lib.Tcp.Connection.Answering.Same.{send_in_loop-Same, handle_write-Same}
use reactor_network_lib.Common.{
  ◌∷◌, ◌≡◌, ℕ, List, [], arith, ok, Option, ◌∙◌, append-nil, length, ◌++◌, ◌<◌, ◌+◌, ◌≤◌, max_size,
  ap, ltb, true, sym, length-append, refl, append_assoc, Then-ok, ◌>>=◌,
}

-- An open connection with valid buffers and all its input taken.
pub record IsReady (c : Connection) : Type 0 where
  pub state : c.state ≡ connected
  pub input : IsValid c.input_buffer
  pub output : IsValid c.output_buffer
  pub taken : content c.input_buffer ≡ []

quiet : (c : Connection) (n : ℕ) → sent (emit (tells_message n) c).effects ≡ sent c.effects
unfolding sent
quiet c n = sent-emit c.effects (tells_message n) ∙ append-nil (sent c.effects)

noisy : (c : Connection) → sent (handle_error (emit logs_error c)).effects ≡ sent c.effects
unfolding sent handle_error
noisy c = grind (arith, sent-emit, append-nil)

module _ (answer : List ℕ → List ℕ) where
  -- What one turn brings about, with `ins` bytes of input and the bytes `outs` of output.
  unfoldable pub Turned : ℕ → List ℕ → Turn → Connection → Type 0
  Turned ins outs t c =
      (c' : Connection) × (run_turn answer t c ≡ ok c')
      × IsReady c'
      × (stream c' ≡ stream c ++ outs)
      × (length c'.input_buffer.buffer ≤ length c.input_buffer.buffer + ins)
      × (length c'.output_buffer.buffer ≤ length c.output_buffer.buffer + length outs)
      × (c'.channel.events.pollin ≡ c.channel.events.pollin)

  reply_lem :
      (xs : List ℕ) (room : Option ℕ) (c : Connection)
      → c.state ≡ connected
      → IsValid c.input_buffer
      → IsValid c.output_buffer
      → content c.input_buffer ≡ xs
      → length c.output_buffer.buffer + length (answer xs) < max_size
      → (c' : Connection) × (reply answer room c ≡ ok c')
        × IsReady c'
        × (stream c' ≡ stream c ++ answer xs)
        × (length c'.input_buffer.buffer ≤ length c.input_buffer.buffer)
        × (length c'.output_buffer.buffer ≤ length c.output_buffer.buffer + length (answer xs))
        × (c'.channel.events.pollin ≡ c.channel.events.pollin)
  unfolding reply send
  reply_lem xs room c up v w is small =
      let (b, got, valid, empty, kept) = retrieve_as_string_refines c.input_buffer v in
      let c1 : Connection = record c { input_buffer = b } in
      let took_all : Buffer.retrieve_as_string c.input_buffer ≡ ok (xs, b) =
        got ∙ ap (λ t. ok (t, b)) is in
      let (c', ran, out, same, grown) =
        send_in_loop_lem (answer xs) (kernel room (length (answer xs))) c1 w
          (Takes-kernel room (length (answer xs))) small in
      let leaves = send_in_loop-Same (answer xs) (kernel room (length (answer xs))) c1 c' ran in
      (
        c',
        rw (took_all, ap is_connected up) ran,
        record {
          state = leaves.state ∙ up;
          input = rw leaves.input_buffer valid;
          output = out;
          taken = ap content leaves.input_buffer ∙ empty;
        },
        same,
        omega (arith, ap (λ b. length b.buffer) leaves.input_buffer, ap length kept),
        grown,
        leaves.pollin,
      )

  pub turn_reads :
      (xs : List ℕ) (room : Option ℕ) (c : Connection)
      → IsReady c
      → 0 < length xs
      → length xs ≤ Buffer.writable_bytes c.input_buffer + extra_size
      → length c.input_buffer.buffer + length xs < max_size
      → length c.output_buffer.buffer + length (answer xs) < max_size
      → Turned (length xs) (answer xs) (reads xs room) c
  unfolding Turned run_turn read_with after_read
  turn_reads xs room c h some_data fits space small =
      let (b, got, valid, holds, size) = read_fd_refines c.input_buffer xs h.input fits space in
      let c1 : Connection = emit (tells_message (length xs)) (record c { input_buffer = b }) in
      let (c', ran, ready, same, ins, outs, hears) =
        reply_lem xs room c1 h.state valid h.output (holds ∙ ap (λ t. t ++ xs) h.taken) small in
      let test : ltb 0 (length xs) ≡ true = ground arith in
      (
        c',
        rw (got, test) ran,
        ready,
        same
            ∙ ap (λ t. (t ++ content c.output_buffer) ++ answer xs)
                (quiet (record c { input_buffer = b }) (length xs)),
        omega (arith, ins, size),
        outs,
        hears,
      )

  pub turn_fails : (e : ℕ) (c : Connection) → IsReady c → Turned 0 [] (fails e) c
  unfolding Turned run_turn read_with after_read Buffer.read_fd
  turn_fails e c h = (
    handle_error (emit logs_error c),
    refl,
    record { state = h.state; input = h.input; output = h.output; taken = h.taken },
    ap (λ t. t ++ content c.output_buffer) (noisy c) ∙ sym (append-nil (stream c)),
    omega arith,
    omega arith,
    refl,
  )

  pub turn_writable : (room : Option ℕ) (c : Connection) → IsReady c → Turned 0 [] (writable room) c
  unfolding Turned run_turn
  turn_writable room c h =
      let pending = Buffer.readable_bytes c.output_buffer in
      let (c', ran, valid, same, kept) =
        handle_write_lem (kernel room pending) c h.output (Takes-kernel room pending) in
      let leaves = handle_write-Same (kernel room pending) c c' ran in
      (
        c',
        ran,
        record {
          state = leaves.state ∙ h.state;
          input = rw leaves.input_buffer h.input;
          output = valid;
          taken = ap content leaves.input_buffer ∙ h.taken;
        },
        same ∙ sym (append-nil (stream c)),
        omega (arith, ap (λ b. length b.buffer) leaves.input_buffer),
        omega (arith, kept),
        leaves.pollin,
      )

  -- For an open connection with valid buffers and no input left, whose message callback takes all the
  -- input and sends what `answer` makes of it, and for pieces of input that a `readv` can
  -- bring, at most the writable bytes and 65536, and that fit with their answers into the buffers: under readable and writable events in any order, failed
  -- reads, partial writes and full sockets included, no handler fails, and what goes out or waits is
  -- what was there before and then the answer to each piece, in the order in which the pieces came in.
  pub answers_lem :
      (ts : List Turn) (c : Connection)
      → IsReady c
      → Bounded answer ts c
      → length c.input_buffer.buffer + length (received ts) < max_size
      → length c.output_buffer.buffer + length (answers answer ts) < max_size
      → (c' : Connection) × (run_turns answer ts c ≡ ok c')
        × IsReady c'
        × (stream c' ≡ stream c ++ answers answer ts)
  unfolding run_turns Turned
  answers_lem [] c h fits ins outs = (c, refl, h, sym (append-nil (stream c)))
  answers_lem (reads xs room ∷ ts) c h fits ins outs =
      let size = length-append xs (received ts) in
      let out = length-append (answer xs) (answers answer ts) in
      let (c', ran, ready, same, more, grown, _) =
        turn_reads xs room c h fits.0.0 fits.0.1 (omega (arith, size)) (omega (arith, out)) in
      let (c'', runs, ready', same') =
        answers_lem ts c' ready (Then-ok (Bounded answer ts) fits.1 ran) (omega (arith, more, size))
          (omega (arith, grown, out)) in
      (
        c'',
        ap (λ m. m >>= run_turns answer ts) ran ∙ runs,
        ready',
        same'
            ∙ ap (λ t. t ++ answers answer ts) same
            ∙ append_assoc (stream c) (answer xs) (answers answer ts),
      )
  answers_lem (fails e ∷ ts) c h fits ins outs =
      let (c', ran, ready, same, more, grown, _) = turn_fails e c h in
      let (c'', runs, ready', same') =
        answers_lem ts c' ready (Then-ok (Bounded answer ts) fits.1 ran) (omega (arith, more))
          (omega (arith, grown)) in
      (
        c'',
        ap (λ m. m >>= run_turns answer ts) ran ∙ runs,
        ready',
        same' ∙ ap (λ t. t ++ answers answer ts) (same ∙ append-nil (stream c)),
      )
  answers_lem (writable room ∷ ts) c h fits ins outs =
      let (c', ran, ready, same, more, grown, _) = turn_writable room c h in
      let (c'', runs, ready', same') =
        answers_lem ts c' ready (Then-ok (Bounded answer ts) fits.1 ran) (omega (arith, more))
          (omega (arith, grown)) in
      (
        c'',
        ap (λ m. m >>= run_turns answer ts) ran ∙ runs,
        ready',
        same' ∙ ap (λ t. t ++ answers answer ts) (same ∙ append-nil (stream c)),
      )
