-- ===== src/Tcp/Address.antt =====
-- tcp/InetAddress.hpp, tcp/InetAddress.cpp and the wrappers of system calls in tcp/SocketsOps.hpp and
-- tcp/SocketsOps.cpp. The C library is the record `Network`; a failed call is `none`, and what a wrapper
-- sends to a log is returned beside its result.
pub mod Text
pub mod Tests
use reactor_network_lib.Decimal.{decimal}
use reactor_network_lib.Common.{
  ℕ, List, Option, Bool, ◌∷◌, take, some, ◌==◌, if◌then◌else◌, none, [], ◌-◌, ◌++◌, ◌&&◌,
}

-- An address as the network has it: port and host in network byte order.
pub record SockaddrIn : Type 0 where
  pub sin_family : ℕ
  pub sin_port : ℕ
  pub s_addr : ℕ

pub record Network : Type 0 where
  pub htons : ℕ → ℕ
  pub ntohs : ℕ → ℕ
  pub htonl : ℕ → ℕ
  pub ntohl : ℕ → ℕ
  pub htobe64 : ℕ → ℕ
  pub be64toh : ℕ → ℕ
  pub inet_ntop : ℕ → Option (List ℕ)
  pub inet_pton : List ℕ → Option ℕ

pub data Logged : Type 0 where
  nothing syserr sysfatal : Logged

abbrev pub af_inet : ℕ
af_inet = 2

abbrev pub zeros : SockaddrIn
zeros = record { sin_family = 0; sin_port = 0; s_addr = 0 }

-- "INVALID"
abbrev pub invalid : List ℕ
invalid = 73 ∷ 78 ∷ 86 ∷ 65 ∷ 76 ∷ 73 ∷ 68 ∷ []

-- `snprintf` into `size` bytes keeps one for the end.
abbrev pub snprintf : ℕ → List ℕ → List ℕ
snprintf size t = take (size - 1) t

pub network_to_host16 : Network → ℕ → ℕ
network_to_host16 n net16 = n.ntohs net16

pub host_to_network16 : Network → ℕ → ℕ
host_to_network16 n host16 = n.htons host16

pub host_to_network32 : Network → ℕ → ℕ
host_to_network32 n host32 = n.htonl host32

pub network_to_host32 : Network → ℕ → ℕ
network_to_host32 n net32 = n.ntohl net32

pub host_to_network64 : Network → ℕ → ℕ
host_to_network64 n host64 = n.htobe64 host64

pub network_to_host64 : Network → ℕ → ℕ
network_to_host64 n net64 = n.be64toh net64

-- `sockets::toHostPort`, with `%s:%u`
pub to_host_port : Network → ℕ → SockaddrIn → List ℕ
unfolding network_to_host16
to_host_port n size addr =
    let host : List ℕ = elim (n.inet_ntop addr.s_addr) [ none ↦ invalid | some text ↦ text ] in
    snprintf size (host ++ 58 ∷ decimal (network_to_host16 n addr.sin_port))

-- `sockets::fromHostPort`
pub from_host_port : Network → List ℕ → ℕ → SockaddrIn → SockaddrIn × Logged
unfolding host_to_network16
from_host_port n ip port addr =
    let addr' : SockaddrIn = record addr {
      sin_family = af_inet;
      sin_port = host_to_network16 n port;
    } in
    elim (n.inet_pton ip) [
      | none ↦ (addr', syserr)
      | some host ↦ (record addr' { s_addr = host }, nothing)
    ]

-- The constructors of `InetAddress`.
pub any_address : Network → ℕ → SockaddrIn
unfolding host_to_network16 host_to_network32
any_address n port = record {
  sin_family = af_inet;
  sin_port = host_to_network16 n port;
  s_addr = host_to_network32 n 0;
}

pub address : Network → List ℕ → ℕ → SockaddrIn × Logged
unfolding from_host_port
address n ip port = from_host_port n ip port zeros

-- `InetAddress::to_host_port`
pub host_port : Network → SockaddrIn → List ℕ
unfolding to_host_port
host_port n addr = to_host_port n 32 addr

-- What `::getsockname` and `::getpeername` fill in, if they do.
pub get_local_addr : Option SockaddrIn → SockaddrIn × Logged
get_local_addr none = (zeros, syserr)
get_local_addr (some addr) = (addr, nothing)

pub get_peer_addr : Option SockaddrIn → SockaddrIn × Logged
get_peer_addr none = (zeros, syserr)
get_peer_addr (some addr) = (addr, nothing)

-- The pending error of a socket, or the errno of the call.
pub get_socket_error : ℕ → Option ℕ → ℕ
get_socket_error errno none = errno
get_socket_error errno (some optval) = optval

pub is_self_connect : Option SockaddrIn → Option SockaddrIn → Bool
unfolding get_local_addr get_peer_addr
is_self_connect local peer =
    let localaddr = (get_local_addr local).0 in
    let peeraddr = (get_peer_addr peer).0 in
    (localaddr.sin_port == peeraddr.sin_port) && (localaddr.s_addr == peeraddr.s_addr)

-- The socket that `::socket` returns; -1 is returned all the same.
pub create_nonblocking_or_die : Option ℕ → Option ℕ × Logged
create_nonblocking_or_die none = (none, sysfatal)
create_nonblocking_or_die (some sockfd) = (some sockfd, nothing)

pub bind_or_die : Bool → Logged
bind_or_die fails = if fails then sysfatal else nothing

pub listen_or_die : Bool → Logged
listen_or_die fails = if fails then sysfatal else nothing

pub close : Bool → Logged
close fails = if fails then syserr else nothing

pub shutdown_write : Bool → Logged
shutdown_write fails = if fails then syserr else nothing
