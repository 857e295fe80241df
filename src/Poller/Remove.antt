-- ===== src/Poller/Remove.antt =====
-- `remove_channel` ends, and leaves what Poller.Swap describes.
use reactor_network_lib.Common.{
  ℕ, ◌<◌, get_elem?, length, ◌≡◌, ◌-◌, some, pos, arith, ◌∙◌, lt_of_get_elem?, length-take, set,
  Bool-cases, ◌==◌, inl, inr, true, negsuc, ltb, ok, get_elem?_of_lt, length-set, refl,
}
use reactor_network_lib.Poller.{PollFd, Poller, fd_of, erase, remove_channel, take_out}
use reactor_network_lib.Poller.Inv.{IsValid, IsRegistered}
use reactor_network_lib.Channel.Store.{erase}
use reactor_network_lib.Channel.{is_none_event}
use reactor_network_lib.Poller.Swap.{other_entry, popped, popped-IsValid, swapped, swapped-IsValid}

remove_steps :
    (p : ℕ) (s : Poller) (i : ℕ) (f : PollFd)
    → IsRegistered p s
    → (s.store p).index ≡ pos i
    → get_elem? s.poll_fds i ≡ some f
    → is_none_event (s.store p) ≡ true
    → f.fd ≡ negsuc (s.store p).fd
    → f.events ≡ (s.store p).events
    → remove_channel p s ≡ take_out (s.store p).fd i f s
unfolding remove_channel
remove_steps p s i f reg leads found idle off same =
    let within : ltb i (length s.poll_fds) ≡ true =
      ground (arith, lt_of_get_elem? s.poll_fds i found) in
    ground arith

-- On a valid poller, a registered channel that waits for nothing, and whose entry an update has
-- switched off, is removed without a fault: its descriptor is free again, the map has no other
-- change, and the shorter list and the map still describe the same channels.
pub remove_channel_lem :
    (p : ℕ) (s : Poller) (i : ℕ) (f : PollFd)
    → IsValid s
    → IsRegistered p s
    → (s.store p).index ≡ pos i
    → get_elem? s.poll_fds i ≡ some f
    → is_none_event (s.store p) ≡ true
    → f.fd ≡ negsuc (s.store p).fd
    → f.events ≡ (s.store p).events
    → (s' : Poller) × (remove_channel p s ≡ ok s')
      × IsValid s'
      × (s'.channels ≡ erase s.channels (s.store p).fd)
      × (length s'.poll_fds ≡ length s.poll_fds - 1)
unfolding take_out
remove_channel_lem p s i f v reg leads found idle off same =
    let ran = remove_steps p s i f reg leads found idle off same in
    let is : fd_of f.fd ≡ (s.store p).fd = rw off in
    let within = lt_of_get_elem? s.poll_fds i found in
    elim (Bool-cases (i == length s.poll_fds - 1)) [
      | inl end ↦
          let eq : i ≡ length s.poll_fds - 1 = ground arith in
          (
            popped p s v reg i f leads found is,
            ran ∙ ground arith,
            popped-IsValid p s v reg i f leads found is eq,
            refl,
            omega (arith, length-take (length s.poll_fds - 1) s.poll_fds),
          )
      | inr before ↦
          let below : i < length s.poll_fds - 1 = ground arith in
          let (last, at_end) = get_elem?_of_lt s.poll_fds (length s.poll_fds - 1) (omega arith) in
          let (q, bound, leads_last) = v.listed (length s.poll_fds - 1) last at_end in
          let apart =
            other_entry p s v reg i f leads found is (length s.poll_fds - 1) q last bound leads_last
              (omega arith) in
          (
            swapped p s v reg i f leads found is last q below at_end bound leads_last,
            ran ∙ ground arith,
            swapped-IsValid p s v reg i f leads found is last q below at_end bound leads_last,
            refl,
            omega (
              arith,
              length-take (length s.poll_fds - 1)
                  (set (set s.poll_fds i last) (length s.poll_fds - 1) f),
              length-set (set s.poll_fds i last) (length s.poll_fds - 1) f,
              length-set s.poll_fds i last,
            ),
          )
    ]
