-- ===== src/Tcp/Connector.antt =====
-- tcp/Connector.hpp and tcp/Connector.cpp: a client's attempts to connect.
-- What a method does outside the object is the list `effects`, newest first. The channel is its
-- descriptor. What system calls return is an argument: the new socket, the errno of `connect`, the
-- pending error of a socket, and whether it is connected to itself. All methods run in the loop's
-- thread; `start` from another thread only queues `start_in_loop`.
pub mod Descriptors
pub mod Preserve
pub mod Runs
pub mod Handover
pub mod Text
pub mod Tests
use reactor_network_lib.Common.{
  ℕ, Bool, ◌*◌, ◌∷◌, Option, false, Outcome, if◌then◌else◌, none, List, true, [], min, ok, fault,
  ◌>>=◌, ◌>>◌, some, assert, memory, not, ◌==◌,
}

pub data State : Type 0 where
  disconnected connecting_state connected : State

pub data Effect : Type 0 where
  opens : ℕ → Effect
  closes : ℕ → Effect
  hands_over : ℕ → Effect
  enables_writing : ℕ → Effect
  removes_channel : ℕ → Effect
  queues_start : Effect
  queues_reset : Effect
  resets : Effect
  runs_after : ℕ → Effect
  cancels_timer : Effect
  logs : Effect

-- `connect_` is `wanted` here.
pub record Connector : Type 0 where
  pub wanted : Bool
  pub state : State
  pub channel : Option ℕ
  pub retry_delay_ms : ℕ
  pub effects : List Effect

abbrev pub k_max_retry_delay_ms : ℕ
k_max_retry_delay_ms = 30 * 1000

abbrev pub k_init_retry_delay_ms : ℕ
k_init_retry_delay_ms = 500

abbrev pub note : Effect → Connector → Connector
note e c = record c { effects = e ∷ c.effects }

abbrev pub is_disconnected : State → Bool
is_disconnected disconnected = true
is_disconnected _ = false

abbrev pub is_connecting : State → Bool
is_connecting connecting_state = true
is_connecting _ = false

abbrev pub has_none : Option ℕ → Bool
has_none none = true
has_none (some fd) = false

-- The descriptor that the newest effect hands over.
abbrev pub handed : List Effect → Option ℕ
handed [] = none
handed (e ∷ es) = elim e [ hands_over fd ↦ some fd | _ ↦ none ]

unfoldable pub create : Connector
create = record {
  wanted = false;
  state = disconnected;
  channel = none;
  retry_delay_ms = k_init_retry_delay_ms;
  effects = [];
}

-- What the `switch` of `connect` does with an errno, `succeeded` being 0.
pub data Errno : Type 0 where
  succeeded einprogress eintr eisconn : Errno
  eagain eaddrinuse eaddrnotavail econnrefused enetunreach : Errno
  eacces eperm eafnosupport ealready ebadf efault enotsock : Errno
  unexpected : ℕ → Errno

unfoldable pub connecting : ℕ → Connector → Outcome Connector
connecting fd c = do
  let c' : Connector = record c { state = connecting_state }
  assert (has_none c'.channel)
  ok (note (enables_writing fd) (record c' { channel = some fd }))

unfoldable pub retry : ℕ → Connector → Connector
retry fd c =
    let c' : Connector = record (note (closes fd) c) { state = disconnected } in
    if c'.wanted
    then record (note (runs_after c'.retry_delay_ms) c') {
      retry_delay_ms = min c'.retry_delay_ms k_max_retry_delay_ms;
    }
    else c'

unfoldable pub give_up : ℕ → Connector → Connector
give_up fd c = note (closes fd) (note logs c)

unfoldable pub after_connect : Errno → ℕ → Connector → Outcome Connector
unfolding connecting retry give_up
after_connect succeeded fd c = connecting fd c
after_connect einprogress fd c = connecting fd c
after_connect eintr fd c = connecting fd c
after_connect eisconn fd c = connecting fd c
after_connect eagain fd c = ok (retry fd c)
after_connect eaddrinuse fd c = ok (retry fd c)
after_connect eaddrnotavail fd c = ok (retry fd c)
after_connect econnrefused fd c = ok (retry fd c)
after_connect enetunreach fd c = ok (retry fd c)
after_connect _ fd c = ok (give_up fd c)

unfoldable pub connect : ℕ → Errno → Connector → Outcome Connector
unfolding after_connect
connect fd e c = after_connect e fd (note (opens fd) c)

unfoldable pub start_in_loop : ℕ → Errno → Connector → Outcome Connector
unfolding connect
start_in_loop fd e c = do
  assert (is_disconnected c.state)
  if c.wanted then connect fd e c else ok (note logs c)

unfoldable pub start : Bool → ℕ → Errno → Connector → Outcome Connector
unfolding start_in_loop
start in_loop fd e c =
    let c' : Connector = record c { wanted = true } in
    if in_loop then start_in_loop fd e c' else ok (note queues_start c')

unfoldable pub restart : ℕ → Errno → Connector → Outcome Connector
unfolding start_in_loop
restart fd e c =
    start_in_loop fd e
      (record c { state = disconnected; retry_delay_ms = k_init_retry_delay_ms; wanted = true })

unfoldable pub stop : Connector → Connector
stop c = note cancels_timer (record c { wanted = false })

unfoldable pub remove_and_reset_channel : Connector → Outcome (ℕ × Connector)
remove_and_reset_channel c = elim c.channel [
  | none ↦ fault memory
  | some fd ↦ ok (fd, note queues_reset (note (removes_channel fd) c))
]

unfoldable pub reset_channel : Connector → Connector
reset_channel c = note resets (record c { channel = none })

-- `err` is the pending error of the socket, 0 for none.
unfoldable pub handle_write : ℕ → Bool → Connector → Outcome Connector
unfolding remove_and_reset_channel retry
handle_write err self_connect c =
    if is_connecting c.state
    then (do
      (fd, c') ← remove_and_reset_channel c
      ok (
          if not (err == 0)
          then retry fd (note logs c')
          else if self_connect
          then retry fd (note logs c')
          else (let c'' : Connector = record c' { state = connected } in
              if c''.wanted then note (hands_over fd) c'' else note (closes fd) c'')))
    else (do assert (is_disconnected c.state); ok c)

pub handle_error : Connector → Outcome Connector
unfolding remove_and_reset_channel retry
handle_error c = do
  assert (is_connecting c.state)
  (fd, c') ← remove_and_reset_channel (note logs c)
  ok (retry fd c')

-- The destructor.
unfoldable pub destroy : Connector → Outcome Connector
destroy c = do let c' = note cancels_timer c; assert (has_none c'.channel); ok c'
