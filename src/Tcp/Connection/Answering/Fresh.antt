-- ===== src/Tcp/Connection/Answering/Fresh.antt =====
-- A connection that has just been established, one that has been closed, and one turn of any kind: what
-- the owner of a connection that answers relies on.
use reactor_network_lib.Buffer
use reactor_network_lib.Buffer.Fresh.{create_lem, create_size}
use reactor_network_lib.Buffer.Inv.{content}
use reactor_network_lib.Buffer.{extra_size}
use reactor_network_lib.Channel.{enable_reading, disable_all, new_channel}
use reactor_network_lib.Tcp.Connection.{
  Connection, create, connect_established, connect_destoryed, handle_close, List, ℕ, length,
}
use reactor_network_lib.Tcp.Connection.Answering.{Turn, IsPiece, reads, fails, writable, ◌<◌, ◌≡◌}
use reactor_network_lib.Tcp.Connection.Answering.Runs.{
  IsReady, Turned, turn_reads, turn_fails, turn_writable,
}
use reactor_network_lib.Common.{
  List, ◌<◌, ℕ, length, ◌≡◌, [], ◌+◌, Bool, ok, max_size, false, arith, ap, sym, ◌∙◌,
}

-- The bytes that a turn brings in, and those that it brings out.
abbrev pub input_of : Turn → List ℕ
input_of (reads xs _) = xs
input_of _ = []

abbrev pub output_of : (List ℕ → List ℕ) → Turn → List ℕ
output_of answer (reads xs _) = answer xs
output_of answer _ = []

pub turn_lem :
    (answer : List ℕ → List ℕ) (t : Turn) (c : Connection)
    → IsReady c
    → IsPiece t c
    → length c.input_buffer.buffer + length (input_of t) < max_size
    → length c.output_buffer.buffer + length (output_of answer t) < max_size
    → Turned answer (length (input_of t)) (output_of answer t) t c
turn_lem answer (reads xs room) c h piece ins outs =
    turn_reads answer xs room c h piece.0 piece.1 ins outs
turn_lem answer (fails e) c h piece ins outs = turn_fails answer e c h
turn_lem answer (writable room) c h piece ins outs = turn_writable answer room c h

abbrev pub fresh_size : ℕ
fresh_size = Buffer.k_cheap_prepend + Buffer.k_initial_size

-- A connection as it is established.
pub record IsNew (c : Connection) : Type 0 where
  pub ready : IsReady c
  pub input : length c.input_buffer.buffer ≡ fresh_size
  pub output : length c.output_buffer.buffer ≡ fresh_size

pub established-IsNew :
    (fd : ℕ) (write_complete : Bool) (c c' : Connection)
    → create fd write_complete ≡ ok c
    → connect_established c ≡ ok c'
    → IsNew c'
unfolding create connect_established enable_reading new_channel
established-IsNew fd write_complete c c' made up =
    let (b, ran, valid, empty) = create_lem in
    let (d, ran', size) = create_size in
    let same : d ≡ b = ground (arith, ran, ran') in
    let ins : c'.input_buffer ≡ b = ground (arith, ran) in
    let outs : c'.output_buffer ≡ b = ground (arith, ran) in
    let long : length b.buffer ≡ fresh_size = ap (λ e. length e.buffer) (sym same) ∙ size in
    record {
      ready = record {
        state = ground arith;
        input = rw ins valid;
        output = rw outs valid;
        taken = ap content ins ∙ empty;
      };
      input = ap (λ e. length e.buffer) ins ∙ long;
      output = ap (λ e. length e.buffer) outs ∙ long;
    }

pub handle_close_off :
    (c c' : Connection) → handle_close c ≡ ok c' → c'.channel.events.pollin ≡ false
unfolding handle_close disable_all
handle_close_off c c' ran = ground arith

pub connect_destoryed_off :
    (c c' : Connection) → connect_destoryed c ≡ ok c' → c'.channel.events.pollin ≡ false
unfolding connect_destoryed disable_all
connect_destoryed_off c c' ran = ground arith
