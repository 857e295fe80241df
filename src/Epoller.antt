-- ===== src/Epoller.antt =====
-- poller/Epoller.cpp and poller/Epoller.hpp: the poller over epoll(4).
-- The kernel's answers are the list of calls made to it, newest last; `accepts` says whether
-- `epoll_ctl` succeeds. A failure is logged, at the level that ends the program for all but a removal.
pub mod Protocol
pub mod Removal
pub mod Lawful
pub mod Ready
pub mod Tests
use reactor_network_lib.Common.{
  ℕ, ℤ, ◌++◌, List, Outcome, negsuc, pos, none, ◌∷◌, if◌then◌else◌, ok, ◌>>◌, [], same_ℤ, assert,
  ◌||◌, not, ltb, length, ◌>>=◌, leb, ◌==◌, ◌*◌,
}
use reactor_network_lib.Channel.{Events, set_index, is_none_event, set_revents}
use reactor_network_lib.Channel.Store.{
  Store, ChannelMap, store_at, is_absent, bind, is_bound_to, erase,
}

abbrev pub k_new : ℤ
k_new = negsuc 0

abbrev pub k_added : ℤ
k_added = pos 1

abbrev pub k_deleted : ℤ
k_deleted = pos 2

abbrev pub k_init_event_list_size : ℕ
k_init_event_list_size = 16

pub data Operation : Type 0 where
  ctl_add ctl_mod ctl_del : Operation

-- One call of `epoll_ctl`: the operation, the descriptor, the events and the pointer handed over.
pub record Ctl : Type 0 where
  pub operation : Operation
  pub fd : ℕ
  pub events : Events
  pub ptr : ℕ

-- `event_list_size` is the size of the vector `events_`.
pub record Epoller : Type 0 where
  pub store : Store
  pub channels : ChannelMap
  pub event_list_size : ℕ
  pub calls : List Ctl

pub create : Store → Epoller
create store = record {
  store = store;
  channels = λ fd. none;
  event_list_size = k_init_event_list_size;
  calls = [];
}

unfoldable pub update : Operation → ℕ → Epoller → Epoller
update op p s =
    let c = s.store p in
    record s {
      calls = s.calls ++ (record { operation = op; fd = c.fd; events = c.events; ptr = p }) ∷ [];
    }

unfoldable pub set_index_at : ℕ → ℤ → Epoller → Epoller
unfolding set_index
set_index_at p i s = record s { store = store_at s.store p (set_index (s.store p) i) }

unfoldable pub update_channel : ℕ → Epoller → Outcome Epoller
unfolding update set_index_at is_none_event
update_channel p s =
    let c = s.store p in
    if same_ℤ c.index k_new || same_ℤ c.index k_deleted
    then (do
      s' ←
          if same_ℤ c.index k_new
          then (do
            assert (is_absent (s.channels c.fd))
            ok (record s { channels = bind s.channels c.fd p }))
          else (do
            assert (not (is_absent (s.channels c.fd)))
            assert (is_bound_to (s.channels c.fd) p)
            ok s)
      ok (update ctl_add p (set_index_at p k_added s')))
    else (do
      assert (not (is_absent (s.channels c.fd)))
      assert (is_bound_to (s.channels c.fd) p)
      assert (same_ℤ c.index k_added)
      ok (
          if is_none_event c
          then set_index_at p k_deleted (update ctl_del p s)
          else update ctl_mod p s))

unfoldable pub remove_channel : ℕ → Epoller → Outcome Epoller
unfolding update set_index_at is_none_event
remove_channel p s = do
  let c = s.store p
  assert (not (is_absent (s.channels c.fd)))
  assert (is_bound_to (s.channels c.fd) p)
  assert (is_none_event c)
  assert (same_ℤ c.index k_added || same_ℤ c.index k_deleted)
  let s' : Epoller = record s { channels = erase s.channels c.fd }
  ok (set_index_at p k_new (if same_ℤ c.index k_added then update ctl_del p s' else s'))

-- The events that `epoll_wait` hands back: the pointer that was handed over, and what has happened.
abbrev pub Ready : Type 0
Ready = ℕ × Events

-- The loop of `fill_active_channels`, its checks for debugging included.
unfoldable pub fill_active_channels : List Ready → Epoller → List ℕ → Outcome (List ℕ × Epoller)
unfolding set_revents
fill_active_channels [] s active = ok (active, s)
fill_active_channels ((p, e) ∷ es) s active = do
  assert (not (is_absent (s.channels (s.store p).fd)))
  assert (is_bound_to (s.channels (s.store p).fd) p)
  fill_active_channels es (record s { store = store_at s.store p (set_revents (s.store p) e) })
      (active ++ p ∷ [])

-- What `epoll_wait` returns: an error, or the events, as many as the vector can hold at most.
pub data Waited : Type 0 where
  failed : Waited
  returned : List Ready → Waited

-- Where every place of the vector was used, it is made twice as long.
unfoldable pub poll : Waited → Epoller → Outcome (List ℕ × Epoller)
unfolding fill_active_channels
poll failed s = ok ([], s)
poll (returned es) s =
    if ltb 0 (length es)
    then (do
      assert (leb (length es) s.event_list_size)
      (active, s') ← fill_active_channels es s []
      ok (
        active,
        if length es == s'.event_list_size
            then record s' { event_list_size = s'.event_list_size * 2 }
            else s',
      ))
    else ok ([], s)
