-- ===== src/PollerInterface/Tests.antt =====
-- Both pollers behind the interface, under the calls of three owners.
use reactor_network_lib.Channel.{Channel, Events, k_none_event}
use reactor_network_lib.Channel.Store.{ChannelMap}
use reactor_network_lib.PollerInterface.Clients.{
  Call, calls, Legal, map_calls, registers, changes, retires,
}
use reactor_network_lib.EventLoop.Channels.{Loop}
use reactor_network_lib.EventLoop.Channels.Calls.{loop_calls, loop_calls_lem}
use reactor_network_lib.Poller.{Poller}
use reactor_network_lib.Epoller.{Epoller}
use reactor_network_lib.Epoller.Protocol
use reactor_network_lib.Epoller.Lawful.{epoller, epoller-IsLawful}
use reactor_network_lib.PollerInterface.Both.{poller_lem, epoller_lem}
use reactor_network_lib.Poller.Inv.{IsValid}
use reactor_network_lib.Poller.Lawful.{poller, poller-IsLawful}
use reactor_network_lib.Common.{
  ℕ, true, none, List, [], arith, ◌≡◌, negsuc, Bool, ok, false, ◌∷◌, refl,
}

abbrev fresh : ℕ → Channel
fresh p = record {
  fd = p;
  events = k_none_event;
  revents = k_none_event;
  index = negsuc 0;
  read_callback = true;
  write_callback = true;
  error_callback = true;
  close_callback = true;
  event_handling = false;
}

abbrev input : Events
input = record k_none_event { pollin = true }

abbrev same : ℕ → ℕ
same p = p

abbrev nobody : ChannelMap
nobody fd = none

abbrev unused : ℕ → Bool
unused p = false

-- The first of three channels is retired while the others stay.
abbrev owners : List Call
owners =
    registers 1 input
    ∷ registers 2 k_none_event
    ∷ changes 2 input
    ∷ registers 3 input
    ∷ retires 1
    ∷ changes 3 k_none_event
    ∷ []

owners-Legal : Legal same owners nobody unused
owners-Legal = (
  (refl, refl),
  ((refl, refl), ((refl, refl), ((refl, refl), ((refl, refl), ((refl, refl), tt))))),
)

abbrev empty : Poller
empty = record { store = fresh; poll_fds = []; channels = nobody }

empty-IsValid : IsValid empty
empty-IsValid = record {
  registered = λ fd p h. absurd (ground arith);
  listed = λ i f h. absurd (ground arith);
}

poller_lem_example :
    (s' : Poller) × (calls poller poller-IsLawful owners empty ≡ ok s')
    × IsValid s'
    × ((fd : ℕ) → s'.channels fd ≡ map_calls same owners nobody fd)
poller_lem_example = poller_lem owners empty unused empty-IsValid (λ q h. refl) owners-Legal

abbrev empty_epoller : Epoller
empty_epoller = record { store = fresh; channels = nobody; event_list_size = 16; calls = [] }

empty_epoller-IsValid : Protocol.IsValid empty_epoller unused
empty_epoller-IsValid = record {
  accepted = Protocol.Watches.start;
  bound = λ fd p h. absurd (ground arith);
  free = λ fd h. refl;
}

epoller_lem_example :
    (s' : Epoller) × (calls epoller epoller-IsLawful owners empty_epoller ≡ ok s')
    × ((w : ℕ → Bool) × Protocol.IsValid s' w)
    × ((fd : ℕ) → s'.channels fd ≡ map_calls same owners nobody fd)
epoller_lem_example =
    epoller_lem owners empty_epoller unused unused empty_epoller-IsValid (λ q h. refl) owners-Legal

-- The loop at 9, in thread 1, with the poller over poll(2).
abbrev own_loop : Loop poller
own_loop = record { this = 9; thread_id = 1; poller = empty; fatal_lines = 0 }

loop_calls_lem_example :
    (l : Loop poller) × (loop_calls poller poller-IsLawful (λ p. 9) 1 owners own_loop ≡ ok l)
    × IsValid l.poller
    × (l.fatal_lines ≡ 0)
    × ((fd : ℕ) → l.poller.channels fd ≡ map_calls same owners nobody fd)
unfolding poller-IsLawful
loop_calls_lem_example =
    loop_calls_lem poller poller-IsLawful (λ p. 9) owners own_loop unused (λ p. refl) empty-IsValid
      (λ q h. refl) owners-Legal
