-- ===== src/Tcp/Socket.antt =====
-- tcp/Socket.hpp and tcp/Socket.cpp: a socket owns its descriptor, and closes it when it ends. With them
-- `sockets::connect` and `setNonBlockAndCloseOnExec` of tcp/SocketsOps.cpp.
-- What the methods ask of the system is the list `calls`, newest last; what a call returns is an argument,
-- as in Tcp.Address.
pub mod Life
pub mod Flags
use reactor_network_lib.Tcp.Address
use reactor_network_lib.Tcp.Address.{SockaddrIn, Logged, nothing, bind_or_die, listen_or_die}
use reactor_network_lib.Common.{
  ℕ, ◌++◌, Bool, Option, List, ◌∷◌, [], none, some, if◌then◌else◌, ltb,
}

pub data Call : Type 0 where
  binds : ℕ → SockaddrIn → Call
  listens : ℕ → Call
  accepts : ℕ → Call
  connects : ℕ → SockaddrIn → Call
  sets_reuse_addr : ℕ → Bool → Call
  sets_tcp_no_delay : ℕ → Bool → Call
  shuts_write : ℕ → Call
  closes : ℕ → Call

pub record Socket : Type 0 where
  pub sock_fd : ℕ
  pub calls : List Call
  pub lines : List Logged

-- A call of a wrapper of tcp/SocketsOps.cpp, with the line that it logs.
abbrev pub issue : Call → Logged → Socket → Socket
issue call line s = record s { calls = s.calls ++ call ∷ []; lines = s.lines ++ line ∷ [] }

pub create : ℕ → Socket
create fd = record { sock_fd = fd; calls = []; lines = [] }

pub bind_address : Bool → SockaddrIn → Socket → Socket
bind_address fails address s = issue (binds s.sock_fd address) (bind_or_die fails) s

pub listen : Bool → Socket → Socket
listen fails s = issue (listens s.sock_fd) (listen_or_die fails) s

-- The descriptor that `sockets::accept` returns, -1 being `none`, and the peer's address, which is set
-- for a descriptor above 0.
pub accept : Option ℕ → SockaddrIn → SockaddrIn → Socket → Option ℕ × SockaddrIn × Socket
accept conn_fd addr peer_addr s =
    let s' = issue (accepts s.sock_fd) nothing s in
    elim conn_fd [
      | none ↦ (none, peer_addr, s')
      | some fd ↦ (some fd, if ltb 0 fd then addr else peer_addr, s')
    ]

pub set_reuse_addr : Bool → Socket → Socket
set_reuse_addr on s = issue (sets_reuse_addr s.sock_fd on) nothing s

pub set_tcp_no_delay : Bool → Socket → Socket
set_tcp_no_delay on s = issue (sets_tcp_no_delay s.sock_fd on) nothing s

pub shutdown_write : Bool → Socket → Socket
shutdown_write fails s = issue (shuts_write s.sock_fd) (Address.shutdown_write fails) s

-- `sockets::connect`
pub connect : SockaddrIn → Socket → Socket
connect addr s = issue (connects s.sock_fd addr) nothing s

-- The destructor.
pub destroy : Bool → Socket → Socket
destroy fails s = issue (closes s.sock_fd) (Address.close fails) s
