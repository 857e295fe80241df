-- ===== src/Tcp/Connector/Handover.antt =====
-- When a connector hands a descriptor over, and that its methods fail no assertion where the loop calls them.
use reactor_network_lib.Tcp.Connector.{
  Connector, Errno, connect, start_in_loop, restart, handle_write, handle_error, has_none,
  is_connecting, is_disconnected, handed, connected, note, opens, connecting, retry, give_up,
  remove_and_reset_channel, State, disconnected, connecting_state, start, k_init_retry_delay_ms,
  Bool, ℕ, enables_writing, logs,
}
use reactor_network_lib.Tcp.Connector.Descriptors.{after_connect_cases}
use reactor_network_lib.Common.{
  Bool, ℕ, ◌≡◌, not, true, false, ◌&&◌, ok, inl, Bool-cases, none, some, arith, ◌∙◌, inr,
  Outcome-cases, refl, fault, assertion,
}

-- While it is connecting, a connector has a channel.
abbrev pub is_tied : Connector → Bool
is_tied c = not (is_connecting c.state && has_none c.channel)

abbrev pub is_up : State → Bool
is_up connected = true
is_up _ = false

connecting_lem :
    (fd : ℕ) (c : Connector)
    → has_none c.channel ≡ true
    → (c' : Connector) × (connecting fd c ≡ ok c') × (is_tied c' ≡ true)
unfolding connecting
connecting_lem fd c free = (
  note (enables_writing fd) (record c { state = connecting_state; channel = some fd }),
  ground arith,
  refl,
)

pub connect_lem :
    (fd : ℕ) (e : Errno) (c : Connector)
    → is_connecting c.state ≡ false
    → has_none c.channel ≡ true
    → (c' : Connector) × (connect fd e c ≡ ok c') × (is_tied c' ≡ true)
unfolding connect connecting retry give_up
connect_lem fd e c idle free = elim (after_connect_cases e) [
  | inl same ↦
      let (c', ran, tied) = connecting_lem fd (note (opens fd) c) free in
      (c', same fd _ ∙ ran, tied)
  | inr (inl same) ↦ (retry fd (note (opens fd) c), same fd _, ground arith)
  | inr (inr same) ↦ (give_up fd (note (opens fd) c), same fd _, ground (arith, idle))
]

pub start_in_loop_lem :
    (fd : ℕ) (e : Errno) (c : Connector)
    → is_disconnected c.state ≡ true
    → has_none c.channel ≡ true
    → (c' : Connector) × (start_in_loop fd e c ≡ ok c') × (is_tied c' ≡ true)
unfolding start_in_loop
start_in_loop_lem fd e c down free = elim (Bool-cases c.wanted) [
  | inl wanted ↦
      let (c', ran, tied) = connect_lem fd e c (ground arith) free in
      (c', ground (arith, ran), tied)
  | inr unwanted ↦ (note logs c, ground arith, ground arith)
]

-- A connector that is connecting or up fails its assertion.
pub start_in_loop_busy :
    (fd : ℕ) (e : Errno) (c : Connector)
    → is_disconnected c.state ≡ false
    → start_in_loop fd e c ≡ fault assertion
unfolding start_in_loop
start_in_loop_busy fd e c busy = ground arith

pub start_busy :
    (fd : ℕ) (e : Errno) (c : Connector)
    → is_disconnected c.state ≡ false
    → start true fd e c ≡ fault assertion
unfolding start start_in_loop
start_busy fd e c busy = ground arith

pub start_lem :
    (fd : ℕ) (e : Errno) (c : Connector)
    → is_disconnected c.state ≡ true
    → has_none c.channel ≡ true
    → (c' : Connector) × (start true fd e c ≡ ok c') × (is_tied c' ≡ true)
unfolding start
start_lem fd e c down free = start_in_loop_lem fd e (record c { wanted = true }) down free

pub restart_lem :
    (fd : ℕ) (e : Errno) (c : Connector)
    → has_none c.channel ≡ true
    → (c' : Connector) × (restart fd e c ≡ ok c') × (is_tied c' ≡ true)
unfolding restart
restart_lem fd e c free =
    start_in_loop_lem fd e
      (record c { state = disconnected; retry_delay_ms = k_init_retry_delay_ms; wanted = true })
      refl free

-- Only a connector that has just connected hands a descriptor over.
abbrev pub gives_up : Connector → Bool
gives_up c = elim (handed c.effects) [ none ↦ true | some fd ↦ is_up c.state ]

handle_write_ok :
    (err : ℕ) (self_connect : Bool) (c c' : Connector)
    → is_connecting c.state ≡ true
    → handle_write err self_connect c ≡ ok c'
    → (is_connecting c'.state ≡ false) × (gives_up c' ≡ true)
unfolding handle_write remove_and_reset_channel retry
handle_write_ok err self_connect c c' busy ran = (ground arith, ground arith)

pub handle_write_lem :
    (err : ℕ) (self_connect : Bool) (c : Connector)
    → is_connecting c.state ≡ true
    → is_tied c ≡ true
    → (c' : Connector) × (handle_write err self_connect c ≡ ok c')
      × (is_connecting c'.state ≡ false)
      × (gives_up c' ≡ true)
unfolding handle_write remove_and_reset_channel retry
handle_write_lem err self_connect c busy tied =
    elim (Outcome-cases (handle_write err self_connect c)) [
      | inl (c', ran) ↦
          let (idle, gives) = handle_write_ok err self_connect c c' busy ran in
          (c', ran, idle, gives)
      | inr (e, ran) ↦ absurd (ground arith)
    ]

handle_error_ok : (c c' : Connector) → handle_error c ≡ ok c' → is_connecting c'.state ≡ false
unfolding handle_error remove_and_reset_channel retry
handle_error_ok c c' ran = ground arith

pub handle_error_lem :
    (c : Connector)
    → is_connecting c.state ≡ true
    → is_tied c ≡ true
    → (c' : Connector) × (handle_error c ≡ ok c') × (is_connecting c'.state ≡ false)
unfolding handle_error remove_and_reset_channel retry
handle_error_lem c busy tied = elim (Outcome-cases (handle_error c)) [
  | inl (c', ran) ↦ (c', ran, handle_error_ok c c' ran)
  | inr (e, ran) ↦ absurd (ground arith)
]
