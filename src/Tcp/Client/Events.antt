-- ===== src/Tcp/Client/Events.antt =====
-- What the owner of a client and its loop do, one after the other.
use reactor_network_lib.Tcp.Client.{
  Client, connect, disconnect, stop, close_connection, run_destruction, handle_write, handle_error,
  reset_channel, start_in_loop, ℕ, Bool, Outcome, List,
}
use reactor_network_lib.Tcp.Connector.{Errno, is_connecting, is_disconnected, has_none}
use reactor_network_lib.Tcp.Connector.Handover.{start_busy, start_in_loop_busy}
use reactor_network_lib.Common.{
  ℕ, Bool, Outcome, List, ◌≡◌, ok, suc, some, ◌&&◌, if◌then◌else◌, ◌∷◌, true, none, fault, ◌>>=◌,
  [], memory, false, refl, assertion,
}

pub data Event : Type 0 where
  connects : ℕ → Errno → Event
  disconnects : Event
  stops : Event
  fires : ℕ → Errno → Event
  writes : ℕ → Bool → Bool → Event
  fails : Event
  resets : Event
  closes : ℕ → ℕ → Errno → Event
  destroys : Event

-- A connector that has no attempt under way. A loop runs its functors before it polls again, so that
-- the channel of the last attempt is gone when a timer fires or a peer closes.
abbrev pub is_idle : Client → Bool
is_idle c = is_disconnected c.connector.state && has_none c.connector.channel

-- What the owner asks for, and what the loop delivers where there is something to deliver: the channel of
-- a connector has events while it is connecting, and a connection that hears its peer is closed.
unfoldable pub step : Event → Client → Outcome Client
step (connects fd e) c = connect fd e c
step disconnects c = elim (disconnect 2 c) [ none ↦ fault memory | some c' ↦ ok c' ]
step stops c = ok (stop c)
step (fires fd e) c = start_in_loop fd e c
step (writes err self_connect poll_fails) c =
    if is_connecting c.connector.state then handle_write err self_connect poll_fails c else ok c
step fails c = if is_connecting c.connector.state then handle_error c else ok c
step resets c = if is_connecting c.connector.state then ok c else ok (reset_channel c)
step (closes p fd e) c =
    if (c.objects p).channel.events.pollin && has_none c.connector.channel
    then close_connection p fd e c
    else ok c
step destroys c = run_destruction c

unfoldable pub run : List Event → Client → Outcome Client
run [] c = ok c
run (e ∷ es) c = do c' ← step e c; run es c'

-- Whether the owner asks to connect, and the timers of retries fire, only while the connector is idle.
-- Nothing in the code sees to it.
abbrev pub waits_its_turn : Event → Client → Bool
waits_its_turn (connects fd e) c = is_idle c
waits_its_turn (fires fd e) c = is_idle c
waits_its_turn _ c = true

unfoldable pub orderly : List Event → Client → Bool
unfolding step
orderly [] c = true
orderly (e ∷ es) c =
    waits_its_turn e c && elim (step e c) [ ok c' ↦ orderly es c' | fault _ ↦ true ]

-- A client that is connecting fails the assertion of its connector when it is asked once more.
connect_busy :
    (fd : ℕ) (e : Errno) (c : Client)
    → is_disconnected c.connector.state ≡ false
    → connect fd e c ≡ fault assertion
unfolding connect
connect_busy fd e c busy = rw (start_busy fd e c.connector busy) refl

fires_busy :
    (fd : ℕ) (e : Errno) (c : Client)
    → is_disconnected c.connector.state ≡ false
    → start_in_loop fd e c ≡ fault assertion
unfolding start_in_loop
fires_busy fd e c busy = rw (start_in_loop_busy fd e c.connector busy) refl

-- How many descriptors may be handed over.
abbrev pub handovers : List Event → ℕ
handovers [] = 0
handovers (writes _ _ _ ∷ es) = suc (handovers es)
handovers (_ ∷ es) = handovers es
