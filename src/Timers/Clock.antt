-- ===== src/Timers/Clock.antt =====
-- The clock decides when the descriptor of a queue fires, and not what is in its map.
use reactor_network_lib.Timers.{
  TimerQueue, add_timer_in_loop, cancel_in_loop, insert, reset_timer_fd, is_first, find_key, Timer,
}
use reactor_network_lib.Common.{ℕ, ◌≡◌, Bool-cases, Option-cases, inl, arith, inr}

pub add_timer_in_loop-timers :
    (c d : ℕ) (t : Timer) (q r : TimerQueue)
    → q.timers ≡ r.timers
    → (add_timer_in_loop q t c).timers ≡ (add_timer_in_loop r t d).timers
unfolding add_timer_in_loop insert reset_timer_fd
add_timer_in_loop-timers c d t q r same =
    rw same (elim (Bool-cases (is_first t.expiration r.timers)) [
      | inl first ↦ ground (arith, first, same)
      | inr later ↦ ground (arith, later, same)
    ])

pub cancel_in_loop-timers :
    (x : ℕ) (q r : TimerQueue)
    → q.timers ≡ r.timers
    → (cancel_in_loop q x).timers ≡ (cancel_in_loop r x).timers
unfolding cancel_in_loop
cancel_in_loop-timers x q r same = elim (Option-cases (find_key x r.timers)) [
  | inl absent ↦ ground (arith, absent, same)
  | inr (k, found) ↦ ground (arith, found, same)
]
