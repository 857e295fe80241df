-- ===== src/Epoller/Ready.antt =====
-- What `poll` hands to the loop.
use reactor_network_lib.Common.{
  ℕ, List, ◌≡◌, arith, ok, refl, ◌++◌, append-nil, ◌∷◌, some, [], length, append_assoc, ◌≤◌, ◌<◌,
  if◌then◌else◌, ◌==◌, ◌*◌,
}
use reactor_network_lib.Epoller.{Epoller, fill_active_channels, Ready, store_at, poll, returned}
use reactor_network_lib.Channel.{Events, set_revents}
use reactor_network_lib.Channel.Store.{Store, store_at}

-- Every event is of a channel that is bound to its descriptor.
abbrev pub AllBound : List Ready → Epoller → Type 0
AllBound [] s = Unit {0}
AllBound ((p, e) ∷ es) s = (s.channels (s.store p).fd ≡ some p) × AllBound es s

abbrev received : ℕ → Events → Epoller → Epoller
received p e s = record s { store = store_at s.store p (set_revents (s.store p) e) }

received-AllBound :
    (es : List Ready) (p : ℕ) (e : Events) (s : Epoller)
    → AllBound es s
    → AllBound es (received p e s)
unfolding set_revents
received-AllBound [] p e s h = tt
received-AllBound ((q, f) ∷ es) p e s h = (ground arith, received-AllBound es p e s h.1)

abbrev pub pointers : List Ready → List ℕ
pointers [] = []
pointers ((p, e) ∷ es) = p ∷ pointers es

-- The channels once they have their events.
abbrev pub delivered : List Ready → Store → Store
delivered [] store = store
delivered ((p, e) ∷ es) store = delivered es (store_at store p (set_revents (store p) e))

-- The events of bound channels are handed on in order, none left out, and nothing else of the epoller
-- changes.
pub fill_active_channels_lem :
    (es : List Ready) (s : Epoller) (active : List ℕ)
    → AllBound es s
    → fill_active_channels es s active
      ≡ ok (active ++ pointers es, record s { store = delivered es s.store })
unfolding fill_active_channels
fill_active_channels_lem [] s active h = rw (append-nil active) refl
fill_active_channels_lem ((p, e) ∷ es) s active h =
    let rest =
      fill_active_channels_lem es (received p e s) (active ++ p ∷ [])
        (received-AllBound es p e s h.1) in
    ground (arith, append_assoc active (p ∷ []) (pointers es))

-- The epoller after `poll` returned the events `es`.
unfoldable pub polled : List Ready → Epoller → Epoller
polled es s =
    let s' : Epoller = record s { store = delivered es s.store } in
    if length es == s.event_list_size
    then record s' { event_list_size = s.event_list_size * 2 }
    else s'

pub poll-polled :
    (es : List Ready) (s : Epoller)
    → AllBound es s
    → length es ≤ s.event_list_size
    → 0 < s.event_list_size
    → poll (returned es) s ≡ ok (pointers es, polled es s)
unfolding poll polled
poll-polled [] s h fits some_room = ground arith
poll-polled (r ∷ es) s h fits some_room =
    let ran = fill_active_channels_lem (r ∷ es) s [] h in ground arith

-- Where every event that `epoll_wait` returns is of a bound channel, and no more of them than the
-- vector holds, which is not empty: `poll` hands on their channels in order, all of them, makes no
-- call, leaves the map alone, and leaves a vector that is longer than the number of events.
pub poll_lem :
    (es : List Ready) (s : Epoller)
    → AllBound es s
    → length es ≤ s.event_list_size
    → 0 < s.event_list_size
    → (s' : Epoller) × (poll (returned es) s ≡ ok (pointers es, s'))
      × (s'.channels ≡ s.channels)
      × (s'.calls ≡ s.calls)
      × (length es < s'.event_list_size)
unfolding polled
poll_lem es s h fits some_room =
    (polled es s, poll-polled es s h fits some_room, ground arith, ground arith, ground arith)
