-- ===== src/Channel/Tests.antt =====
-- A channel at a hang-up on which the theorem is applied.
use reactor_network_lib.Channel.Dispatch.{
  handle_event_lem, runs_read, runs_close, runs_error, runs_write,
}
use reactor_network_lib.Channel.{Channel, handle_event, k_none_event, true, false}
use reactor_network_lib.Common.{◌≡◌, true, pos, ◌↔◌, ◌⊎◌, false, length, ◌≤◌, refl}

abbrev hung_up : Channel
hung_up = record {
  fd = 5;
  events = k_none_event;
  revents = record k_none_event { pollhup = true; pollout = true };
  index = pos 1;
  read_callback = true;
  write_callback = true;
  error_callback = true;
  close_callback = true;
  event_handling = false;
}

handle_event_lem_example :
    let (calls, c') = handle_event hung_up 9 in
    ((runs_read calls ≡ true) ↔ (
      (hung_up.revents.pollin ≡ true)
      ⊎ ((hung_up.revents.pollpri ≡ true) ⊎ (hung_up.revents.pollrdhup ≡ true))))
    × ((runs_close calls ≡ true)
        ↔ ((hung_up.revents.pollhup ≡ true) × (hung_up.revents.pollin ≡ false)))
    × ((runs_error calls ≡ true)
        ↔ ((hung_up.revents.pollerr ≡ true) ⊎ (hung_up.revents.pollnval ≡ true)))
    × ((runs_write calls ≡ true) ↔ (hung_up.revents.pollout ≡ true))
    × (length calls ≤ 4)
    × (c' ≡ record hung_up { event_handling = false })
handle_event_lem_example = handle_event_lem hung_up 9 refl refl refl refl
