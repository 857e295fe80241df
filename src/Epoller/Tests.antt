-- ===== src/Epoller/Tests.antt =====
-- An epoller with no channel, and with one, on which the theorems are applied.
use reactor_network_lib.Epoller.{ℕ, Epoller, k_new, Ctl, ctl_add, Ready, k_added}
use reactor_network_lib.Channel.{Channel, k_none_event}
use reactor_network_lib.Epoller.Protocol.{IsValid, Watches, watch}
use reactor_network_lib.Common.{
  ℕ, arith, Bool, none, true, false, [], refl, List, if◌then◌else◌, ◌==◌, ◌∷◌, some,
}

-- Channels by pointer: the one at `p` is of descriptor `p` and waits for nothing.
abbrev store : ℕ → Channel
store p = record {
  fd = p;
  events = k_none_event;
  revents = k_none_event;
  index = k_new;
  read_callback = true;
  write_callback = true;
  error_callback = true;
  close_callback = true;
  event_handling = false;
}

abbrev pub nothing : ℕ → Bool
nothing fd = false

abbrev empty : Epoller
empty = record { store = store; channels = λ fd. none; event_list_size = 16; calls = [] }

empty-IsValid : IsValid empty nothing
empty-IsValid = record {
  accepted = Watches.start;
  bound = λ fd p h. absurd (ground arith);
  free = λ fd h. refl;
}

-- After the addition of channel 5.
abbrev pub added_five : Ctl
added_five = record { operation = ctl_add; fd = 5; events = k_none_event; ptr = 5 }

abbrev pub one : Epoller
one = record {
  store = λ p. if p == 5 then record (store 5) { index = k_added } else store p;
  channels = λ fd. if fd == 5 then some 5 else none;
  event_list_size = 16;
  calls = added_five ∷ [];
}

pub one-IsValid : IsValid one (watch nothing added_five)
one-IsValid = record {
  accepted = Watches.call added_five Watches.start refl;
  bound = λ fd p h. ground arith;
  free = λ fd h. ground arith;
}

-- Channel 5 has input.
abbrev pub five_readable : List Ready
five_readable = (5, record k_none_event { pollin = true }) ∷ []
