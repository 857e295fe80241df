-- ===== src/Channel.antt =====
-- event_loop/Channel.hpp and event_loop/Channel.cpp: a descriptor, the events that it waits for, and
-- the callbacks that it runs.
-- An `int` of the event bits of <poll.h> is the record of its bits: `|`, `&` and `~` act on each bit.
pub mod Dispatch
pub mod Store
pub mod Tests
use reactor_network_lib.Common.{
  ℕ, Bool, false, ℤ, negsuc, true, List, ◌||◌, not, if◌then◌else◌, ◌&&◌, ◌∷◌, ◌++◌, [], Outcome,
  assert,
}

pub record Events : Type 0 where
  pub pollin : Bool
  pub pollpri : Bool
  pub pollout : Bool
  pub pollerr : Bool
  pub pollhup : Bool
  pub pollnval : Bool
  pub pollrdhup : Bool

abbrev pub k_none_event : Events
k_none_event = record {
  pollin = false;
  pollpri = false;
  pollout = false;
  pollerr = false;
  pollhup = false;
  pollnval = false;
  pollrdhup = false;
}

-- `e != 0`
abbrev pub any_event : Events → Bool
any_event e =
    e.pollin
    || (e.pollpri || (e.pollout || (e.pollerr || (e.pollhup || (e.pollnval || e.pollrdhup)))))

-- The four flags say which callbacks are set.
pub record Channel : Type 0 where
  pub fd : ℕ
  pub events : Events
  pub revents : Events
  pub index : ℤ
  pub read_callback : Bool
  pub write_callback : Bool
  pub error_callback : Bool
  pub close_callback : Bool
  pub event_handling : Bool

unfoldable pub new_channel : ℕ → Channel
new_channel fd = record {
  fd = fd;
  events = k_none_event;
  revents = k_none_event;
  index = negsuc 0;
  read_callback = false;
  write_callback = false;
  error_callback = false;
  close_callback = false;
  event_handling = false;
}

-- The four methods below set `events_`; the `update` that follows is the poller's.
unfoldable pub enable_reading : Channel → Channel
enable_reading c = record c { events = record c.events { pollin = true; pollpri = true } }

unfoldable pub enable_writing : Channel → Channel
enable_writing c = record c { events = record c.events { pollout = true } }

unfoldable pub disable_writing : Channel → Channel
disable_writing c = record c { events = record c.events { pollout = false } }

unfoldable pub disable_all : Channel → Channel
disable_all c = record c { events = k_none_event }

unfoldable pub is_none_event : Channel → Bool
is_none_event c = not (any_event c.events)

unfoldable pub is_writing : Channel → Bool
is_writing c = c.events.pollout

unfoldable pub set_revents : Channel → Events → Channel
set_revents c e = record c { revents = e }

unfoldable pub set_index : Channel → ℤ → Channel
set_index c i = record c { index = i }

-- A callback that `handle_event` runs; a read callback is given the receive time.
pub data Call : Type 0 where
  closes errors writes : Call
  reads : ℕ → Call

abbrev run_if : Bool → Bool → Call → List Call
run_if condition is_set call = if condition && is_set then call ∷ [] else []

-- The callbacks that are run, in order, and the channel afterwards.
unfoldable pub handle_event : Channel → ℕ → List Call × Channel
handle_event c receive_time =
    let e = c.revents in
    let c' : Channel = record c { event_handling = true } in
    (
      run_if (e.pollhup && not e.pollin) c'.close_callback closes
          ++ (run_if (e.pollerr || e.pollnval) c'.error_callback errors
              ++ (run_if (e.pollin || (e.pollpri || e.pollrdhup)) c'.read_callback
                    (reads receive_time)
                  ++ run_if e.pollout c'.write_callback writes)),
      record c' { event_handling = false },
    )

-- The destructor.
unfoldable pub destroy : Channel → Outcome (Unit {0})
destroy c = assert (not c.event_handling)
