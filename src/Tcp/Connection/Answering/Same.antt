-- ===== src/Tcp/Connection/Answering/Same.antt =====
-- What a send and a write leave as it is.
use reactor_network_lib.Buffer
use reactor_network_lib.Channel.{is_writing, enable_writing, disable_writing}
use reactor_network_lib.Tcp.Connection.{
  Connection, Written, send_in_loop, write_now, write_later, handle_write, write_out, after_write,
  shutdown_in_loop, took, failed, List,
}
use reactor_network_lib.Common.{
  ◌≡◌, List, ◌∙◌, ℕ, ok, drop, arith, Bool-cases, length, not, Outcome-cases, ◌-◌, ◌&&◌, ◌==◌, inl,
  inr,
}

pub record Same (c c' : Connection) : Type 0 where
  pub state : c'.state ≡ c.state
  pub input_buffer : c'.input_buffer ≡ c.input_buffer
  pub pollin : c'.channel.events.pollin ≡ c.channel.events.pollin

write_later-Same :
    (message : List ℕ) (n : ℕ) (c c' : Connection) → write_later message n c ≡ ok c' → Same c c'
unfolding write_later enable_writing
write_later-Same message n c c' ran =
    let m = Buffer.append_data c.output_buffer (drop n message) (length message - n) in
    record {
      state = ground (arith, Outcome-cases m);
      input_buffer = ground (arith, Outcome-cases m);
      pollin = ground (arith, Outcome-cases m);
    }

write_now-Same :
    (message : List ℕ) (w : Written) (c : Connection) → Same c (write_now message w c).1
unfolding write_now
write_now-Same message (took n) c = record {
  state = ground arith;
  input_buffer = ground arith;
  pollin = ground arith;
}
write_now-Same message (failed b) c = record {
  state = ground arith;
  input_buffer = ground arith;
  pollin = ground arith;
}

Same-trans : {c d e : Connection} → Same c d → Same d e → Same c e
Same-trans a b = record {
  state = b.state ∙ a.state;
  input_buffer = b.input_buffer ∙ a.input_buffer;
  pollin = b.pollin ∙ a.pollin;
}

pub send_in_loop-Same :
    (message : List ℕ) (w : Written) (c c' : Connection)
    → send_in_loop message w c ≡ ok c'
    → Same c c'
unfolding send_in_loop
send_in_loop-Same message w c c' ran =
    elim (Bool-cases (not (is_writing c.channel) && (Buffer.readable_bytes c.output_buffer == 0))) [
      | inl now ↦ Same-trans (write_now-Same message w c) (
          write_later-Same message (write_now message w c).0 (write_now message w c).1 c'
            (ground (arith, now)))
      | inr later ↦ write_later-Same message 0 c c' (ground (arith, later))
    ]

pub handle_write-Same : (w : Written) (c c' : Connection) → handle_write w c ≡ ok c' → Same c c'
unfolding handle_write write_out after_write shutdown_in_loop disable_writing
handle_write-Same (failed b) c c' ran = record {
  state = ground arith;
  input_buffer = ground arith;
  pollin = ground arith;
}
handle_write-Same (took n) c c' ran =
    let m = Buffer.retrieve c.output_buffer n in
    let r = Buffer.read_at c.output_buffer.buffer (Buffer.peek c.output_buffer) n in
    record {
      state = ground (arith, Outcome-cases m, Outcome-cases r);
      input_buffer = ground (arith, Outcome-cases m, Outcome-cases r);
      pollin = ground (arith, Outcome-cases m, Outcome-cases r);
    }
