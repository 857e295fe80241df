-- ===== src/Tcp/Connection/Lifecycle.antt =====
-- The state of a connection over its handlers.
use reactor_network_lib.Tcp.Connection.{
  send, shutdown_loop, Connection, handle_close, shutdown_in_loop, Outcome, connect_destoryed,
  is_open, is_connected, disconnecting, emit, disconnected, queues_shutdown, Written, tells_close,
  with_channel, removes_channel, tells_connection, create, connect_established, connected, Buffer,
  connecting, is_connecting,
}
use reactor_network_lib.Common.{
  Outcome, ℕ, ◌>>=◌, Bool, ◌≡◌, false, some, fault, assertion, if◌then◌else◌, true, ok, List, refl,
  suc, arith, [], Bool-cases, inl, ◌∙◌, inr,
}
use reactor_network_lib.Channel.{
  is_none_event, disable_all, k_none_event, enable_reading, new_channel,
}
use reactor_network_lib.Buffer.Fresh.{create_lem}
use reactor_network_lib.Buffer.{Buffer}

-- `shutdown` ends: the compare-and-exchange takes effect once at most, whether or not the caller is
-- the loop's thread; the second half then runs, or is queued, once.
pub shutdown_loop_lem :
    (fuel : ℕ) (in_loop : Bool) (c : Connection)
    → shutdown_loop (suc (suc fuel)) in_loop c
      ≡ some (
          if is_connected c.state
          then (let c' : Connection = record c { state = disconnecting } in
              if in_loop then shutdown_in_loop c' else emit queues_shutdown c')
          else c)
unfolding shutdown_loop shutdown_in_loop
shutdown_loop_lem fuel in_loop c = ground arith

-- The two halves of a close: the handler, and what its owner does about it.
pub after_close : Connection → Outcome Connection
after_close c = do c' ← handle_close c; connect_destoryed c'

-- The state that they leave.
closed : Connection → Connection
closed c =
    let c1 = emit tells_close (with_channel (disable_all c.channel) c) in
    let c2 = with_channel (disable_all c1.channel) (record c1 { state = disconnected }) in
    emit removes_channel (emit (tells_connection disconnected) c2)

-- A close ends every open connection once: `handle_close` and then `connect_destoryed` leave it
-- disconnected with all its events off; a further `handle_close` or `connect_destoryed` is an
-- assertion that fails, and a further `send` or `shutdown` changes nothing.
pub close_lem :
    (c : Connection) (message : List ℕ) (w : Written) (in_loop : Bool) (fuel : ℕ)
    → is_open c.state ≡ true
    → (c' : Connection) × (after_close c ≡ ok c')
      × (c'.state ≡ disconnected)
      × (is_none_event c'.channel ≡ true)
      × (handle_close c' ≡ fault assertion)
      × (connect_destoryed c' ≡ fault assertion)
      × (send in_loop message w c' ≡ ok c')
      × (shutdown_loop (suc fuel) in_loop c' ≡ some c')
unfolding handle_close connect_destoryed send shutdown_loop after_close closed is_none_event
    disable_all
close_lem c message w in_loop fuel h = (closed c, ground arith, refl, refl, refl, refl, refl, refl)

-- A connection that no handler opened: `handle_close` and `connect_destoryed` assert.
pub not_open_lem :
    (c : Connection)
    → is_open c.state ≡ false
    → (handle_close c ≡ fault assertion) × (connect_destoryed c ≡ fault assertion)
unfolding handle_close connect_destoryed
not_open_lem c h = (ground arith, ground arith)

-- What the constructor makes of a fresh buffer.
abbrev made : ℕ → Bool → Buffer → Connection
made fd write_complete b = record {
  state = connecting;
  channel = record (new_channel fd) {
    read_callback = true;
    write_callback = true;
    error_callback = true;
    close_callback = true;
  };
  write_complete_callback = write_complete;
  input_buffer = b;
  output_buffer = b;
  effects = [];
}

-- A new connection that is established is connected and waits for input.
pub establish_lem :
    (fd : ℕ) (write_complete : Bool)
    → (c : Connection) × (c' : Connection) × (create fd write_complete ≡ ok c)
      × (connect_established c ≡ ok c')
      × (c'.state ≡ connected)
      × (c'.channel.events.pollin ≡ true)
unfolding create connect_established enable_reading new_channel
establish_lem fd write_complete =
    let (b, ran, valid, empty) = create_lem in
    let c = made fd write_complete b in
    let c' = with_channel (enable_reading c.channel) (record c { state = connected }) in
    (c, emit (tells_connection connected) c', rw ran refl, refl, refl, refl)

-- What the owner sees of a close: the state stays, and the channel waits for nothing.
pub handle_close_lem :
    (c : Connection)
    → is_open c.state ≡ true
    → (c' : Connection) × (handle_close c ≡ ok c')
      × (c'.state ≡ c.state)
      × (c'.channel.events ≡ k_none_event)
unfolding handle_close disable_all
handle_close_lem c h =
    (emit tells_close (with_channel (disable_all c.channel) c), ground arith, refl, refl)

pub connect_destoryed_lem :
    (c : Connection)
    → is_open c.state ≡ true
    → (c' : Connection) × (connect_destoryed c ≡ ok c')
      × (c'.state ≡ disconnected)
      × (c'.channel.events ≡ k_none_event)
unfolding connect_destoryed disable_all
connect_destoryed_lem c h = (
  emit removes_channel (
      emit (tells_connection disconnected)
        (with_channel (disable_all c.channel) (record c { state = disconnected }))),
  ground arith,
  refl,
  refl,
)

-- What the owner sees of a `shutdown` in the loop's thread: the connection stays open and hears its peer.
pub shut_lem :
    (c : Connection)
    → (c' : Connection) × (shutdown_loop 2 true c ≡ some c')
      × (is_open c'.state ≡ is_open c.state)
      × (is_connecting c'.state ≡ is_connecting c.state)
      × (c'.channel ≡ c.channel)
unfolding shutdown_in_loop
shut_lem c = elim (Bool-cases (is_connected c.state)) [
  | inl up ↦ (
    shutdown_in_loop (record c { state = disconnecting }),
    shutdown_loop_lem 0 true c ∙ rw up refl,
    ground arith,
    ground arith,
    ground arith,
  )
  | inr down ↦ (c, shutdown_loop_lem 0 true c ∙ rw down refl, refl, refl, refl)
]
