-- ===== src/Poller.antt =====
-- poller/Poller.cpp and poller/Poller.hpp: the poller over poll(2).
-- `assert_in_loop_thread` and the log change nothing here. There are fewer than 2^31 descriptors.
pub mod Inv
pub mod Swap
pub mod Remove
pub mod Lawful
pub mod Silent
pub mod Fill
pub mod Delivery
pub mod Ready
pub mod Tests
use reactor_network_lib.Common.{
  ℕ, ℤ, Outcome, List, pos, if◌then◌else◌, take, Bool, ok, ◌∷◌, ◌>>◌, negsuc, assert, is_neg,
  length, not, ◌==◌, ◌-◌, [], set, ◌&&◌, ltb, ◌++◌, get_elem?, fault, assertion, none, memory, some,
  same_ℤ, ◌||◌,
}
use reactor_network_lib.Channel.{
  Channel, Events, is_none_event, k_none_event, set_revents, set_index, any_event,
}
use reactor_network_lib.Channel.Store.{
  Store, is_absent, erase, store_at, ChannelMap, is_bound_to, bind,
}

-- `struct pollfd`
pub record PollFd : Type 0 where
  pub fd : ℤ
  pub events : Events
  pub revents : Events

pub record Poller : Type 0 where
  pub store : Store
  pub poll_fds : List PollFd
  pub channels : ChannelMap

-- The descriptor that an entry stands for, also when it is switched off.
abbrev pub fd_of : ℤ → ℕ
fd_of (pos n) = n
fd_of (negsuc n) = n

-- The index as an offset into `poll_fds_`.
abbrev pub offset : ℤ → ℕ
offset (pos n) = n
offset (negsuc n) = 0

add_new : ℕ → Poller → Outcome Poller
unfolding set_index
add_new p s = do
  let c = s.store p
  assert (is_absent (s.channels c.fd))
  let new_pfd : PollFd = record { fd = pos c.fd; events = c.events; revents = k_none_event }
  let poll_fds = s.poll_fds ++ new_pfd ∷ []
  let idx = length poll_fds - 1
  ok (record {
    store = store_at s.store p (set_index c (pos idx));
    poll_fds = poll_fds;
    channels = bind s.channels c.fd p;
  })

-- The entry of a registered channel, rewritten. Where the entry's descriptor was negated before, it
-- stays negated.
abbrev pub rewrite : Channel → PollFd → PollFd
rewrite c pfd = record {
  fd = if is_none_event c then negsuc c.fd else pfd.fd;
  events = c.events;
  revents = k_none_event;
}

update_existing : ℕ → Poller → Outcome Poller
update_existing p s = do
  let c = s.store p
  assert (not (is_absent (s.channels c.fd)))
  assert (is_bound_to (s.channels c.fd) p)
  let idx = offset c.index
  assert (not (is_neg c.index) && ltb idx (length s.poll_fds))
  elim (get_elem? s.poll_fds idx) [
    | none ↦ fault memory
    | some pfd ↦ do
      assert (same_ℤ pfd.fd (pos c.fd) || same_ℤ pfd.fd (negsuc c.fd))
      ok (record s { poll_fds = set s.poll_fds idx (rewrite c pfd) })
  ]

pub update_channel : ℕ → Poller → Outcome Poller
unfolding add_new update_existing
update_channel p s = if is_neg (s.store p).index then add_new p s else update_existing p s

-- `iter_swap(begin + idx, end - 1)`, then `pop_back`.
abbrev pub swap_out : ℕ → PollFd → PollFd → List PollFd → List PollFd
swap_out idx pfd last xs = take (length xs - 1) (set (set xs idx last) (length xs - 1) pfd)

abbrev same_flag : Bool → Bool → Bool
same_flag a b = if a then b else not b

abbrev pub same_events : Events → Events → Bool
same_events a b =
    same_flag a.pollin b.pollin
    && (same_flag a.pollpri b.pollpri
        && (same_flag a.pollout b.pollout
            && (same_flag a.pollerr b.pollerr
                && (same_flag a.pollhup b.pollhup
                    && (same_flag a.pollnval b.pollnval && same_flag a.pollrdhup b.pollrdhup)))))

take_out : ℕ → ℕ → PollFd → Poller → Outcome Poller
take_out fd idx pfd s =
    if idx == length s.poll_fds - 1
    then ok (record s {
      poll_fds = take (length s.poll_fds - 1) s.poll_fds;
      channels = erase s.channels fd;
    })
    else elim (get_elem? s.poll_fds (length s.poll_fds - 1)) [
      | none ↦ fault memory
      | some last ↦ elim (erase s.channels fd (fd_of last.fd)) [
        | none ↦ fault memory
        | some q ↦ ok (record {
          store = store_at s.store q (set_index (s.store q) (pos idx));
          poll_fds = swap_out idx pfd last s.poll_fds;
          channels = erase s.channels fd;
        })
      ]
    ]

pub remove_channel : ℕ → Poller → Outcome Poller
unfolding take_out is_none_event
remove_channel p s = do
  let c = s.store p
  assert (not (is_absent (s.channels c.fd)))
  assert (is_bound_to (s.channels c.fd) p)
  assert (is_none_event c)
  let idx = offset c.index
  assert (not (is_neg c.index) && ltb idx (length s.poll_fds))
  elim (get_elem? s.poll_fds idx) [
    | none ↦ fault memory
    | some pfd ↦ do
      assert (same_ℤ pfd.fd (negsuc c.fd) && same_events pfd.events c.events)
      take_out c.fd idx pfd s
  ]

-- The loop over `poll_fds_`. `num_events` is positive when it starts.
pub fill_active_channels : ℕ → List PollFd → Poller → List ℕ → Outcome (List ℕ × Poller)
unfolding set_revents
fill_active_channels num_events [] s active = ok (active, s)
fill_active_channels num_events (pfd ∷ pfds) s active =
    let skip = fill_active_channels num_events pfds s active in
    let go_on = λ (p : ℕ).
      fill_active_channels (num_events - 1) pfds
        (record s { store = store_at s.store p (set_revents (s.store p) pfd.revents) })
        (active ++ p ∷ []) in
    if any_event pfd.revents
    then elim pfd.fd [
      | negsuc n ↦ fault assertion
      | pos fd ↦ elim (s.channels fd) [
        | none ↦ fault assertion
        | some p ↦ do
          assert ((s.store p).fd == fd)
          if num_events - 1 == 0
              then ok (
                active ++ p ∷ [],
                record s { store = store_at s.store p (set_revents (s.store p) pfd.revents) },
              )
              else go_on p
      ]
    ]
    else skip

-- What ::poll returns: an error, or a count with the entries that it has marked.
pub data Polled : Type 0 where
  failed : Polled
  returned : ℕ → List Events → Polled

abbrev pub mark : List Events → List PollFd → List PollFd
mark [] fs = fs
mark (e ∷ es) [] = []
mark (e ∷ es) (f ∷ fs) = record f { revents = e } ∷ mark es fs

-- The active channels are appended to a list that the loop has cleared.
pub poll : Polled → Poller → Outcome (List ℕ × Poller)
poll failed s = ok ([], s)
poll (returned n es) s =
    let s' : Poller = record s { poll_fds = mark es s.poll_fds } in
    if ltb 0 n then fill_active_channels n s'.poll_fds s' [] else ok ([], s')
