-- ===== src/Time/Relative.antt =====
-- How long the timer descriptor is set to wait, for times ahead and for times gone by.
use reactor_network_lib.Common.{ℕ, ◌≤◌, ◌*◌, ◌+◌, ◌-◌, ◌<◌, ◌^◌, arith}
use reactor_network_lib.Time.{Timespec, how_much_time_from_now, TimeStamp}

-- The nanoseconds that a `timespec` stands for.
abbrev pub total_ns : Timespec → ℕ
total_ns t = t.tv_sec * 1_000_000_000 + t.tv_nsec

-- For a time that has not passed and is less than 2^63 nanoseconds ahead, the wait is that time to
-- within a microsecond, and 100 microseconds at the least; its nanoseconds are fewer than a
-- second.
pub how_much_time_from_now_ahead :
    (when : TimeStamp) (now : ℕ)
    → now ≤ when.val
    → when.val - now < 2 ^ 63
    → let t = how_much_time_from_now when now in
      (t.tv_nsec < 1_000_000_000)
      × (100_000 ≤ total_ns t)
      × (when.val - now < total_ns t + 1000)
      × (total_ns t ≤ when.val - now + 100_000)
unfolding how_much_time_from_now
how_much_time_from_now_ahead when now h small = ground arith

-- For a time that passed between a microsecond and 2^63 nanoseconds ago, the unsigned interval
-- wraps round: the wait is not the least one but at least nine million million seconds.
pub how_much_time_from_now_past :
    (when : TimeStamp) (now : ℕ)
    → when.val + 1000 ≤ now
    → now - when.val < 2 ^ 63
    → 9_000_000_000_000 ≤ (how_much_time_from_now when now).tv_sec
unfolding how_much_time_from_now
how_much_time_from_now_past when now h small = ground arith
