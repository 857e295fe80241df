-- ===== src/Poller/Silent.antt =====
-- A channel that is switched off and on again.
use reactor_network_lib.Common.{
  ℕ, ◌≡◌, ok, pos, get_elem?, fault, some, assertion, negsuc, lt_of_get_elem?, arith, set,
  get_elem?-set_self, refl,
}
use reactor_network_lib.Poller.{Poller, PollFd, remove_channel, update_channel, rewrite}
use reactor_network_lib.Poller.Inv.{IsRegistered}

-- Where the entry of a registered channel has been switched off, an update sets its events but
-- does not switch it on again, whatever they are: `::poll` skips an entry whose descriptor is
-- negative.
pub update_stays_off :
    (p : ℕ) (s : Poller) (i : ℕ) (f : PollFd)
    → IsRegistered p s
    → (s.store p).index ≡ pos i
    → get_elem? s.poll_fds i ≡ some f
    → f.fd ≡ negsuc (s.store p).fd
    → (s' : Poller) × (f' : PollFd) × (update_channel p s ≡ ok s')
      × (get_elem? s'.poll_fds i ≡ some f')
      × (f'.events ≡ (s.store p).events)
      × (f'.fd ≡ negsuc (s.store p).fd)
unfolding update_channel
update_stays_off p s i f reg leads found off =
    let within = lt_of_get_elem? s.poll_fds i found in
    (
      record s { poll_fds = set s.poll_fds i (rewrite (s.store p) f) },
      rewrite (s.store p) f,
      ground arith,
      get_elem?-set_self s.poll_fds i (rewrite (s.store p) f) within,
      refl,
      ground arith,
    )

-- After `remove_channel` the index stays, so the same channel cannot be added again: its next update
-- fails an assertion.
pub update_after_remove_asserts :
    (p : ℕ) (s s' : Poller) → remove_channel p s ≡ ok s' → update_channel p s' ≡ fault assertion
unfolding remove_channel update_channel
update_after_remove_asserts p s s' ran = ground arith
