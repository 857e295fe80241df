-- ===== src/Poller/Tests.antt =====
-- A poller with two channels on which the theorems are applied.
use reactor_network_lib.Poller.{update_channel, remove_channel, ℕ, ℤ, Poller, PollFd, erase, fd_of}
use reactor_network_lib.Channel.{Channel, k_none_event, is_none_event}
use reactor_network_lib.Poller.Inv.{IsValid}
use reactor_network_lib.Common.{
  ℕ, ℤ, ◌≡◌, true, negsuc, some, ok, if◌then◌else◌, false, get_elem?, pos, ◌==◌, ◌∷◌, [], length,
  none, refl, arith, suc, zero, List,
}
use reactor_network_lib.Channel.Store.{erase}
use reactor_network_lib.Poller.Silent.{update_stays_off}
use reactor_network_lib.Poller.Remove.{remove_channel_lem}
use reactor_network_lib.Channel.{Events}

abbrev quiet : ℕ → ℤ → Channel
quiet fd index = record {
  fd = fd;
  events = k_none_event;
  revents = k_none_event;
  index = index;
  read_callback = true;
  write_callback = true;
  error_callback = true;
  close_callback = true;
  event_handling = false;
}

-- The channels at 1 and 2 are registered, all others new.
abbrev store : ℕ → Channel
store p = if p == 1 then quiet 1 (pos 0) else if p == 2 then quiet 2 (pos 1) else quiet p (negsuc 0)

abbrev entry : ℤ → PollFd
entry fd = record { fd = fd; events = k_none_event; revents = k_none_event }

abbrev pub two : Poller
two = record {
  store = store;
  poll_fds = entry (negsuc 1) ∷ entry (pos 2) ∷ [];
  channels = λ fd. if fd == 1 then some 1 else if fd == 2 then some 2 else none;
}

two-listed :
    (i : ℕ) (f : PollFd)
    → get_elem? two.poll_fds i ≡ some f
    → (p : ℕ) × (two.channels (fd_of f.fd) ≡ some p) × ((two.store p).index ≡ pos i)
two-listed zero f h = (1, ground arith, refl)
two-listed (suc zero) f h = (2, ground arith, refl)
two-listed (suc (suc i)) f h = absurd (ground arith)

two-registered :
    (fd p : ℕ)
    → two.channels fd ≡ some p
    → ((two.store p).fd ≡ fd)
      × (i : ℕ) × ((two.store p).index ≡ pos i)
      × (f : PollFd) × (get_elem? two.poll_fds i ≡ some f)
      × (fd_of f.fd ≡ fd)
two-registered zero p h = absurd (ground arith)
two-registered (suc zero) p h = (ground arith, 0, ground arith, entry (negsuc 1), refl, refl)
two-registered (suc (suc zero)) p h = (ground arith, 1, ground arith, entry (pos 2), refl, refl)
two-registered (suc (suc (suc fd))) p h = absurd (ground arith)

pub two-IsValid : IsValid two
two-IsValid = record { registered = two-registered; listed = two-listed }

remove_channel_lem_example :
    (s' : Poller) × (remove_channel 1 two ≡ ok s')
    × IsValid s'
    × (s'.channels ≡ erase two.channels 1)
    × (length s'.poll_fds ≡ 1)
unfolding is_none_event
remove_channel_lem_example =
    remove_channel_lem 1 two 0 (entry (negsuc 1)) two-IsValid refl refl refl refl refl refl

-- The channel at 1 waits for input again.
abbrev enabled : Poller
enabled = record two {
  store = λ p.
      if p == 1
      then record (store 1) { events = record k_none_event { pollin = true } }
      else store p;
}

update_stays_off_example :
    (s' : Poller) × (f' : PollFd) × (update_channel 1 enabled ≡ ok s')
    × (get_elem? s'.poll_fds 0 ≡ some f')
    × (f'.events ≡ record k_none_event { pollin = true })
    × (f'.fd ≡ negsuc 1)
update_stays_off_example = update_stays_off 1 enabled 0 (entry (negsuc 1)) refl refl refl refl

-- The second entry has input.
abbrev pub input : Events
input = record k_none_event { pollin = true }

abbrev answers : List Events
answers = k_none_event ∷ input ∷ []
