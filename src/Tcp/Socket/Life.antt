-- ===== src/Tcp/Socket/Life.antt =====
-- The calls that a socket makes from its constructor to its destructor.
use reactor_network_lib.Tcp.Address.{SockaddrIn}
use reactor_network_lib.Tcp.Socket.{
  Socket, Call, binds, listens, accepts, connects, sets_reuse_addr, sets_tcp_no_delay, shuts_write,
  closes, create, bind_address, listen, accept, connect, set_reuse_addr, set_tcp_no_delay,
  shutdown_write, destroy, Bool, List, ℕ,
}
use reactor_network_lib.Common.{
  Bool, List, ℕ, ◌≡◌, Option, ◌∷◌, true, false, some, ◌++◌, [], ◌∙◌, refl, ap, none,
}

pub data Use : Type 0 where
  bind : Bool → SockaddrIn → Use
  starts_listening : Bool → Use
  takes : Option ℕ → SockaddrIn → SockaddrIn → Use
  reuse : Bool → Use
  no_delay : Bool → Use
  shut : Bool → Use
  joins : SockaddrIn → Use

pub use_once : Use → Socket → Socket
unfolding bind_address listen accept set_reuse_addr set_tcp_no_delay shutdown_write connect
use_once (bind fails address) s = bind_address fails address s
use_once (starts_listening fails) s = listen fails s
use_once (takes fd addr peer) s = (accept fd addr peer s).2
use_once (reuse on) s = set_reuse_addr on s
use_once (no_delay on) s = set_tcp_no_delay on s
use_once (shut fails) s = shutdown_write fails s
use_once (joins addr) s = connect addr s

pub use_all : List Use → Socket → Socket
unfolding use_once
use_all [] s = s
use_all (u ∷ us) s = use_all us (use_once u s)

pub fd_of : Call → ℕ
fd_of (binds fd _) = fd
fd_of (listens fd) = fd
fd_of (accepts fd) = fd
fd_of (connects fd _) = fd
fd_of (sets_reuse_addr fd _) = fd
fd_of (sets_tcp_no_delay fd _) = fd
fd_of (shuts_write fd) = fd
fd_of (closes fd) = fd

pub is_close : Call → Bool
is_close (closes fd) = true
is_close _ = false

-- Calls on one descriptor, none of which closes it.
abbrev pub AllOn : ℕ → List Call → Type 0
AllOn fd [] = Unit {0}
AllOn fd (c ∷ cs) = (fd_of c ≡ fd) × (is_close c ≡ false) × AllOn fd cs

AllOn-snoc :
    (fd : ℕ) (cs : List Call) (c : Call)
    → AllOn fd cs
    → fd_of c ≡ fd
    → is_close c ≡ false
    → AllOn fd (cs ++ c ∷ [])
AllOn-snoc fd [] c h same goes = (same, goes, tt)
AllOn-snoc fd (d ∷ ds) c h same goes = (h.0, h.1, AllOn-snoc fd ds c h.2 same goes)

use_once-AllOn :
    (u : Use) (s : Socket)
    → AllOn s.sock_fd s.calls
    → ((use_once u s).sock_fd ≡ s.sock_fd) × AllOn s.sock_fd (use_once u s).calls
unfolding use_once fd_of is_close accept
use_once-AllOn (bind fails address) s h =
    (refl, AllOn-snoc s.sock_fd s.calls (binds s.sock_fd address) h refl refl)
use_once-AllOn (starts_listening fails) s h =
    (refl, AllOn-snoc s.sock_fd s.calls (listens s.sock_fd) h refl refl)
use_once-AllOn (takes none addr peer) s h =
    (refl, AllOn-snoc s.sock_fd s.calls (accepts s.sock_fd) h refl refl)
use_once-AllOn (takes (some fd) addr peer) s h =
    (refl, AllOn-snoc s.sock_fd s.calls (accepts s.sock_fd) h refl refl)
use_once-AllOn (reuse on) s h =
    (refl, AllOn-snoc s.sock_fd s.calls (sets_reuse_addr s.sock_fd on) h refl refl)
use_once-AllOn (no_delay on) s h =
    (refl, AllOn-snoc s.sock_fd s.calls (sets_tcp_no_delay s.sock_fd on) h refl refl)
use_once-AllOn (shut fails) s h =
    (refl, AllOn-snoc s.sock_fd s.calls (shuts_write s.sock_fd) h refl refl)
use_once-AllOn (joins addr) s h =
    (refl, AllOn-snoc s.sock_fd s.calls (connects s.sock_fd addr) h refl refl)

use_all-AllOn :
    (us : List Use) (s : Socket) (fd : ℕ)
    → s.sock_fd ≡ fd
    → AllOn fd s.calls
    → ((use_all us s).sock_fd ≡ fd) × AllOn fd (use_all us s).calls
unfolding use_all
use_all-AllOn [] s fd same h = (same, h)
use_all-AllOn (u ∷ us) s fd same h =
    let (still, on) = use_once-AllOn u s (rw same h) in
    use_all-AllOn us (use_once u s) fd (still ∙ same) (rw (← same) on)

-- From its constructor to its destructor, whatever its owner calls in between, a socket makes calls on
-- its own descriptor alone; none but the last closes it, and the last, the destructor's, does.
pub life_lem :
    (us : List Use) (fd : ℕ) (fails : Bool)
    → (cs : List Call) × ((destroy fails (use_all us (create fd))).calls ≡ cs ++ closes fd ∷ [])
      × AllOn fd cs
unfolding create destroy
life_lem us fd fails =
    let (same, on) = use_all-AllOn us (create fd) fd refl tt in
    (
      (use_all us (create fd)).calls,
      ap (λ n. (use_all us (create fd)).calls ++ closes n ∷ []) same,
      on,
    )
