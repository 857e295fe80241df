-- ===== src/PollerInterface/Both.antt =====
-- What the owners of channels rely on, for each of the two pollers.
use reactor_network_lib.Poller.{Poller}
use reactor_network_lib.Poller.Inv
use reactor_network_lib.Poller.Lawful.{poller, poller-IsLawful}
use reactor_network_lib.Epoller.{Epoller}
use reactor_network_lib.Epoller.Protocol
use reactor_network_lib.Epoller.Lawful.{epoller, epoller-IsLawful}
use reactor_network_lib.PollerInterface.{IsFresh}
use reactor_network_lib.PollerInterface.Clients.{Call, calls, calls_lem, Legal, map_calls}
use reactor_network_lib.Common.{List, ℕ, Bool, ◌≡◌, false, ok, refl}

-- The owners of channels register each once, on a descriptor that is free, change the events of those
-- that are registered, and retire them by an update without events and a removal. Whatever they do in
-- this way to a valid poller over poll(2), no assertion fails, the poller stays valid, and its map is
-- that from descriptors to channels which the calls describe.
pub poller_lem :
    (cs : List Call) (s : Poller) (used : ℕ → Bool)
    → Inv.IsValid s
    → ((q : ℕ) → used q ≡ false → IsFresh (s.store q))
    → Legal (λ q. (s.store q).fd) cs s.channels used
    → (s' : Poller) × (calls poller poller-IsLawful cs s ≡ ok s')
      × Inv.IsValid s'
      × ((fd : ℕ) → s'.channels fd ≡ map_calls (λ q. (s.store q).fd) cs s.channels fd)
unfolding poller-IsLawful
poller_lem cs s used v fresh legal =
    calls_lem poller poller-IsLawful (λ q. (s.store q).fd) cs s.channels used s
      (record { valid = v; same_fds = λ q. refl; same_map = λ fd. refl; unused = fresh }) legal

-- Whatever the owners of channels do in the same way to a valid epoller, each registering its channel once
-- on a descriptor that is free, then changing and retiring it: no assertion fails, the kernel has accepted
-- every call of `epoll_ctl` that they cause, and the epoller's map is that which the calls describe.
pub epoller_lem :
    (cs : List Call) (s : Epoller) (w : ℕ → Bool) (used : ℕ → Bool)
    → Protocol.IsValid s w
    → ((q : ℕ) → used q ≡ false → IsFresh (s.store q))
    → Legal (λ q. (s.store q).fd) cs s.channels used
    → (s' : Epoller) × (calls epoller epoller-IsLawful cs s ≡ ok s')
      × ((w' : ℕ → Bool) × Protocol.IsValid s' w')
      × ((fd : ℕ) → s'.channels fd ≡ map_calls (λ q. (s.store q).fd) cs s.channels fd)
unfolding epoller-IsLawful
epoller_lem cs s w used v fresh legal =
    calls_lem epoller epoller-IsLawful (λ q. (s.store q).fd) cs s.channels used s
      (record { valid = (w, v); same_fds = λ q. refl; same_map = λ fd. refl; unused = fresh }) legal
