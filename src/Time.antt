-- ===== src/Time.antt =====
-- time_utils/TimeDataStructure.hpp, time_utils/Timer.hpp and time_utils/Timer.cpp, with the
-- arithmetic of time_utils/TimerQueue.cpp on time stamps.
-- A `time_point` of the system clock is its count of nanoseconds since 1970. A `double` of seconds is
-- scaled to nanoseconds and is not negative.
pub mod Relative
pub mod Text
use reactor_network_lib.Common.{
  ℕ, Bool, false, true, ◌^◌, Outcome, ltb, if◌then◌else◌, ◌/◌, leb, ◌>>=◌, ok, ◌-◌, ◌%◌, ◌+◌, ◌*◌,
  fault, overflow,
}

pub record TimeStamp : Type 0 where
  pub val : ℕ
  pub valid : Bool

-- `TimeStamp()`
abbrev pub no_time : TimeStamp
no_time = record { val = 0; valid = false }

-- `TimeStamp(t)`
abbrev pub stamp : ℕ → TimeStamp
stamp t = record { val = t; valid = true }

-- `operator<=>` compares the time points alone.
abbrev pub earlier : TimeStamp → TimeStamp → Bool
earlier a b = ltb a.val b.val

abbrev pub k_micro_seconds_per_second : ℕ
k_micro_seconds_per_second = 1_000_000

-- `int` ends here: the conversion of a larger `double` is undefined.
abbrev pub int_mod : ℕ
int_mod = 2 ^ 31

-- `add_time`, of an interval in nanoseconds: it is cut to whole microseconds in an `int`.
unfoldable pub add_time : TimeStamp → ℕ → Outcome TimeStamp
add_time t interval =
    if ltb (interval / 1000) int_mod
    then ok (stamp (t.val + interval / 1000 * 1000))
    else fault overflow

-- The pointer to a timer is its `id`, and the closure that it runs is a number.
pub record Timer : Type 0 where
  pub id : ℕ
  pub callback : ℕ
  pub expiration : TimeStamp
  pub interval : ℕ
  pub repeats : Bool

unfoldable pub new_timer : ℕ → ℕ → TimeStamp → ℕ → Timer
new_timer id cb when interval = record {
  id = id;
  callback = cb;
  expiration = when;
  interval = interval;
  repeats = ltb 0 interval;
}

unfoldable pub restart : Timer → TimeStamp → Outcome Timer
unfolding add_time
restart t now =
    if t.repeats
    then (do e ← add_time now t.interval; ok (record t { expiration = e }))
    else ok (record t { expiration = no_time })

pub record Timespec : Type 0 where
  pub tv_sec : ℕ
  pub tv_nsec : ℕ

-- `(when - now) / 1us`, which is signed and rounds towards zero, as a `uint64_t`.
abbrev pub micros_between : ℕ → ℕ → ℕ
micros_between now when =
    if leb now when then (when - now) / 1000 else (2 ^ 64 - (now - when) / 1000) % 2 ^ 64

-- `now` is what the system clock says when the function asks it.
unfoldable pub how_much_time_from_now : TimeStamp → ℕ → Timespec
how_much_time_from_now when now =
    let us = micros_between now when.val in
    let interval = if ltb us 100 then 100 else us in
    record {
      tv_sec = interval / k_micro_seconds_per_second;
      tv_nsec = interval % k_micro_seconds_per_second * 1000;
    }
