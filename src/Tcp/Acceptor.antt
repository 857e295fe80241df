-- ===== src/Tcp/Acceptor.antt =====
-- tcp/Acceptor.hpp and tcp/Acceptor.cpp, with Socket::accept of tcp/Socket.cpp and sockets::accept of
-- tcp/SocketsOps.cpp: the listening socket of a server.
-- What a method does outside the object is the list `effects`, newest first. What system calls return
-- is an argument; a descriptor of -1 is `none`.
pub mod Balance
pub mod Tests
use reactor_network_lib.Common.{
  ℕ, Bool, ◌∷◌, Option, true, if◌then◌else◌, List, Outcome, false, some, none, fault, suc,
  assertion, [], ok, zero,
}

-- The errors of ::accept that `sockets::accept` tells apart.
pub data Errno : Type 0 where
  eagain econnaborted eintr eproto eperm emfile : Errno
  ebadf efault einval enfile enobufs enomem enotsock eopnotsupp : Errno
  unknown : ℕ → Errno

pub data Effect : Type 0 where
  accepts : ℕ → Effect
  opens : ℕ → Effect
  closes : ℕ → Effect
  closes_nothing : Effect
  hands_over : ℕ → Effect
  listens : Effect
  enables_reading : Effect
  logs_error : Effect
  logs_fatal : Effect

pub record Acceptor : Type 0 where
  pub listenning : Bool
  pub new_connection_callback : Bool
  pub idle_fd : Option ℕ
  pub effects : List Effect

abbrev pub note : Effect → Acceptor → Acceptor
note e a = record a { effects = e ∷ a.effects }

-- The constructor, with what ::open returns for /dev/null.
pub create : Option ℕ → Outcome Acceptor
create none = fault assertion
create (some idle) = ok (record {
  listenning = false;
  new_connection_callback = false;
  idle_fd = some idle;
  effects = opens idle ∷ [];
})

pub set_new_connection_callback : Acceptor → Acceptor
set_new_connection_callback a = record a { new_connection_callback = true }

pub listen : Acceptor → Acceptor
listen a = note enables_reading (note listens (record a { listenning = true }))

-- What ::accept4 returns.
pub data Accepted : Type 0 where
  got : ℕ → Accepted
  failed : Errno → Accepted

-- Whether an error is one that `sockets::accept` expects.
abbrev pub is_expected : Errno → Bool
is_expected eagain = true
is_expected econnaborted = true
is_expected eintr = true
is_expected eproto = true
is_expected eperm = true
is_expected emfile = true
is_expected _ = false

pub accept : Accepted → Acceptor → Acceptor
accept (got fd) a = note (accepts fd) a
accept (failed e) a = let a' = note logs_error a in if is_expected e then a' else note logs_fatal a'

-- What the system calls of one round return: ::accept4, whether ::poll fails on the new descriptor,
-- and, after EMFILE, the plain ::accept and ::open.
pub record Round : Type 0 where
  pub accepted : Accepted
  pub poll_fails : Bool
  pub idle_accepted : Option ℕ
  pub idle_opened : Option ℕ

close_fd : Option ℕ → Acceptor → Acceptor
close_fd none a = note closes_nothing a
close_fd (some fd) a = note (closes fd) a

take_idle : (ℕ → Effect) → Option ℕ → Acceptor → Acceptor
take_idle e none a = record a { idle_fd = none }
take_idle e (some fd) a = note (e fd) (record a { idle_fd = some fd })

-- The answer to EMFILE: give up the idle descriptor, accept with it, close, and open it again.
refuse : Round → Acceptor → Acceptor
unfolding close_fd take_idle
refuse r a =
    let a1 = close_fd a.idle_fd a in
    let a2 = take_idle accepts r.idle_accepted a1 in
    let a3 = close_fd a2.idle_fd a2 in take_idle opens r.idle_opened a3

-- A new connection: handed to the callback if the socket can be polled and a callback is set.
admit : ℕ → Round → Acceptor → Acceptor
admit fd r a =
    if r.poll_fails
    then note (closes fd) a
    else if a.new_connection_callback
    then note (hands_over fd) a
    else note (closes fd) a

abbrev pub is_emfile : Errno → Bool
is_emfile emfile = true
is_emfile _ = false

pub handle_read_once : Round → Acceptor → Acceptor
unfolding accept refuse admit
handle_read_once r a =
    let a' = accept r.accepted a in
    elim r.accepted [
      | got fd ↦ admit fd r a'
      | failed e ↦ let a'' = note logs_error a' in if is_emfile e then refuse r a'' else a''
    ]

-- The `while` over the results of ::accept4: it ends at the descriptor 0 and at an error other than
-- EMFILE; `none` if it has not ended when the rounds do.
pub handle_read_all : List Round → Acceptor → Option Acceptor
unfolding accept refuse admit
handle_read_all [] a = none
handle_read_all (r ∷ rs) a =
    let a' = accept r.accepted a in
    elim r.accepted [
      | got zero ↦ some a'
      | got (suc fd) ↦ handle_read_all rs (admit (suc fd) r a')
      | failed e ↦
          let rest = handle_read_all rs (refuse r a') in if is_emfile e then rest else some a'
    ]
