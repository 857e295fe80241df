-- ===== src/Timers/Descriptor.antt =====
-- What time_utils/TimerQueue.cpp logs of its descriptor; what the system calls return is an argument.
use reactor_network_lib.Common.{List, Option, ℕ, ◌∷◌, [], some, none, if◌then◌else◌, ◌==◌}
use reactor_network_lib.Time.Text.{to_string}

pub data Line : Type 0 where
  -- The trace, with the text of the time at which it was read.
  trace : List ℕ → Line
  error : Line
  sysfatal : Line

-- The descriptor, -1 being `none`: the queue keeps it all the same.
pub create_timer_fd : Option ℕ → Option ℕ × List Line
create_timer_fd none = (none, sysfatal ∷ [])
create_timer_fd (some timerfd) = (some timerfd, [])

-- After `::read` of `n` bytes: a failed read is reported after the trace.
pub read_timer_fd : (ℕ → List ℕ) → ℕ → ℕ → List Line
read_timer_fd strftime n now = trace (to_string strftime now) ∷ (if n == 8 then [] else error ∷ [])
