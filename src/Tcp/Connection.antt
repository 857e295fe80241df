-- ===== src/Tcp/Connection.antt =====
-- tcp/TcpConnection.hpp and tcp/TcpConnection.cpp: a connection, its state and its two buffers.
-- What a handler does outside the object is the list `effects`, newest last: the calls on the loop,
-- the poller and the socket, and the callbacks of the owner. All handlers run in the loop's thread;
-- a `send` or `shutdown` from another thread only queues its second half.
pub mod Stream
pub mod Drain
pub mod Traffic
pub mod Lifecycle
pub mod Shutdown
pub mod Dispatch
pub mod Answering
pub mod Text
pub mod Tests
use reactor_network_lib.Buffer
use reactor_network_lib.Common.{
  ℕ, List, ◌++◌, Bool, if◌then◌else◌, Outcome, ◌∷◌, true, take, ltb, not, ok, Option, ◌>>=◌, ◌>>◌,
  [], false, length, ◌&&◌, none, assert, ◌==◌, drop, suc, ◌-◌, some, zero,
}
use reactor_network_lib.Buffer.{ReadResult, Readv, Buffer, count, saved_errno}
use reactor_network_lib.Channel.{
  Channel, new_channel, Events, is_writing, enable_reading, disable_all, disable_writing,
  enable_writing,
}

pub data State : Type 0 where
  connecting connected disconnected disconnecting : State

pub data Effect : Type 0 where
  -- `::write` took these bytes.
  wrote : List ℕ → Effect
  -- `EventLoop::update_channel` and `remove_channel`.
  updates_channel : Events → Effect
  removes_channel : Effect
  -- `Socket::shutdown_write` and `Socket::set_tcp_no_delay`; the destructor of the socket.
  shuts_write : Effect
  sets_tcp_no_delay : Bool → Effect
  closes_socket : Effect
  -- `EventLoop::queue_in_loop` of a second half or of the write-complete callback.
  queues_send : List ℕ → Effect
  queues_shutdown : Effect
  queues_write_complete : Effect
  -- The callbacks.
  tells_connection : State → Effect
  tells_message : ℕ → Effect
  tells_close : Effect
  -- A line of LOG_SYSERR or LOG_ERROR.
  logs_error : Effect

pub record Connection : Type 0 where
  pub state : State
  pub channel : Channel
  pub write_complete_callback : Bool
  pub input_buffer : Buffer
  pub output_buffer : Buffer
  pub effects : List Effect

abbrev pub emit : Effect → Connection → Connection
emit e c = record c { effects = c.effects ++ e ∷ [] }

abbrev pub is_open : State → Bool
is_open connected = true
is_open disconnecting = true
is_open _ = false

abbrev pub is_connected : State → Bool
is_connected connected = true
is_connected _ = false

abbrev pub is_connecting : State → Bool
is_connecting connecting = true
is_connecting _ = false

abbrev pub is_disconnecting : State → Bool
is_disconnecting disconnecting = true
is_disconnecting _ = false

-- A change of the channel's events, with the update of the poller that follows it.
abbrev pub with_channel : Channel → Connection → Connection
with_channel ch c = emit (updates_channel ch.events) (record c { channel = ch })

-- The constructor: the channel has its four callbacks set.
unfoldable pub create : ℕ → Bool → Outcome Connection
unfolding new_channel
create fd write_complete = do
  input ← Buffer.create
  output ← Buffer.create
  ok (record {
    state = connecting;
    channel = record (new_channel fd) {
      read_callback = true;
      write_callback = true;
      error_callback = true;
      close_callback = true;
    };
    write_complete_callback = write_complete;
    input_buffer = input;
    output_buffer = output;
    effects = [];
  })

-- What `::write` returns: a count, or an error, which may be EWOULDBLOCK.
pub data Written : Type 0 where
  took : ℕ → Written
  failed : Bool → Written

-- The direct attempt of `send_in_loop`: how much was written.
write_now : List ℕ → Written → Connection → ℕ × Connection
write_now message (took n) c =
    let c' = emit (wrote (take n message)) c in
    (
      n,
      if ltb n (length message)
          then c'
          else if c'.write_complete_callback
          then emit queues_write_complete c'
          else c',
    )
write_now message (failed would_block) c = (0, if would_block then c else emit logs_error c)

-- The rest of the message goes to the output buffer.
write_later : List ℕ → ℕ → Connection → Outcome Connection
write_later message n c =
    if ltb n (length message)
    then (do
      output ← Buffer.append_data c.output_buffer (drop n message) (length message - n)
      let c' : Connection = record c { output_buffer = output }
      ok (if not (is_writing c'.channel) then with_channel (enable_writing c'.channel) c' else c'))
    else ok c

pub send_in_loop : List ℕ → Written → Connection → Outcome Connection
unfolding write_now write_later
send_in_loop message w c =
    let (n, c') =
      if not (is_writing c.channel) && (Buffer.readable_bytes c.output_buffer == 0)
      then write_now message w c
      else (0, c) in
    write_later message n c'

pub send : Bool → List ℕ → Written → Connection → Outcome Connection
unfolding send_in_loop
send in_loop message w c =
    if is_connected c.state
    then if in_loop then send_in_loop message w c else ok (emit (queues_send message) c)
    else ok c

unfoldable pub shutdown_in_loop : Connection → Connection
shutdown_in_loop c = if not (is_writing c.channel) then emit shuts_write c else c

-- The `while` of `shutdown` over the compare-and-exchange, on fuel: `none` if it runs out.
pub shutdown_loop : ℕ → Bool → Connection → Option Connection
unfolding shutdown_in_loop
shutdown_loop zero in_loop c = none
shutdown_loop (suc fuel) in_loop c =
    let c' : Connection = record c { state = disconnecting } in
    let again =
      shutdown_loop fuel in_loop
        (if in_loop then shutdown_in_loop c' else emit queues_shutdown c') in
    if is_connected c.state then again else some c

unfoldable pub connect_established : Connection → Outcome Connection
connect_established c = do
  assert (is_connecting c.state)
  let c' = with_channel (enable_reading c.channel) (record c { state = connected })
  ok (emit (tells_connection c'.state) c')

unfoldable pub connect_destoryed : Connection → Outcome Connection
connect_destoryed c = do
  assert (is_open c.state)
  let c' = with_channel (disable_all c.channel) (record c { state = disconnected })
  ok (emit removes_channel (emit (tells_connection c'.state) c'))

unfoldable pub handle_close : Connection → Outcome Connection
handle_close c = do
  assert (is_open c.state)
  ok (emit tells_close (with_channel (disable_all c.channel) c))

pub handle_error : Connection → Connection
handle_error c = emit logs_error c

-- After `read_fd`: data, the end of the stream, or an error.
after_read : ReadResult → Connection → Outcome Connection
unfolding handle_close handle_error
after_read (count n) c = if ltb 0 n then ok (emit (tells_message n) c) else handle_close c
after_read (saved_errno e) c = ok (handle_error (emit logs_error c))

pub handle_read : Readv → Connection → Outcome Connection
unfolding after_read
handle_read r c = do
  (n, input) ← Buffer.read_fd c.input_buffer r
  after_read n (record c { input_buffer = input })

-- After a write that took `n` bytes of the output buffer.
pub after_write : ℕ → Connection → Outcome Connection
unfolding shutdown_in_loop
after_write n c = do
  output ← Buffer.retrieve c.output_buffer n
  let c' : Connection = record c { output_buffer = output }
  if Buffer.readable_bytes output == 0
      then (let c1 = with_channel (disable_writing c'.channel) c' in
          let c2 = if c1.write_complete_callback then emit queues_write_complete c1 else c1 in
          ok (if is_disconnecting c2.state then shutdown_in_loop c2 else c2))
      else ok c'

write_out : Written → Connection → Outcome Connection
unfolding after_write
write_out (took n) c = do
  pending ← Buffer.read_at c.output_buffer.buffer (Buffer.peek c.output_buffer) n
  if ltb 0 n then after_write n (emit (wrote pending) c) else ok (emit logs_error c)
write_out (failed would_block) c = ok (emit logs_error c)

pub handle_write : Written → Connection → Outcome Connection
unfolding write_out
handle_write w c = if is_writing c.channel then write_out w c else ok c

pub set_tcp_no_delay : Bool → Connection → Connection
set_tcp_no_delay on c = emit (sets_tcp_no_delay on) c

-- The destructor, with those of the channel and of the socket.
pub destroy : Connection → Outcome Connection
destroy c = do assert (not c.channel.event_handling); ok (emit closes_socket c)
