-- ===== src/Tcp/Connector/Tests.antt =====
-- A run of a connector that is refused once and then connects, on which the theorems are applied.
use reactor_network_lib.Tcp.Connector.{
  create, start, start_in_loop, handle_write, Connector, true, einprogress, false, disconnected,
  connecting_state, connected, econnrefused, hands_over, runs_after, enables_writing, closes, opens,
  queues_reset, removes_channel,
}
use reactor_network_lib.Tcp.Connector.Descriptors.{Step, tally, opening, disposal, held}
use reactor_network_lib.Tcp.Connector.Runs.{Reaches, no_leak, delay_never_grows}
use reactor_network_lib.Common.{true, false, ◌≡◌, ◌+◌, refl, none, some, ◌∷◌, []}

abbrev refused : Connector
refused = record {
  wanted = true;
  state = disconnected;
  channel = none;
  retry_delay_ms = 500;
  effects = runs_after 500 ∷ closes 3 ∷ opens 3 ∷ [];
}

abbrev trying : Connector
trying = record refused {
  state = connecting_state;
  channel = some 4;
  effects = enables_writing 4 ∷ opens 4 ∷ refused.effects;
}

abbrev made : Connector
made = record trying {
  state = connected;
  effects = hands_over 4 ∷ queues_reset ∷ removes_channel 4 ∷ trying.effects;
}

to_refused : Reaches create refused
unfolding create start
to_refused = Reaches.next (Reaches.here create) (Step.starts true 3 econnrefused refl)

to_trying : Reaches create trying
unfolding start_in_loop
to_trying = Reaches.next to_refused (Step.starts_in_loop 4 einprogress refl)

to_made : Reaches create made
unfolding handle_write
to_made = Reaches.next to_trying (Step.writes 0 false refl)

no_leak_example : tally (opening 4) made.effects ≡ tally (disposal 4) made.effects + held 4 made
no_leak_example = no_leak made to_made 4

delay_never_grows_example : made.retry_delay_ms ≡ 500
delay_never_grows_example = delay_never_grows made to_made
