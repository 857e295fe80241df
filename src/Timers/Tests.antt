-- ===== src/Timers/Tests.antt =====
-- A queue of two timers on which the theorems are applied.
use reactor_network_lib.Timers.{
  handle_read, Timer, TimerQueue, TimeStamp, before, get_expired, cancel_in_loop, lower_bound,
}
use reactor_network_lib.Timers.Order.{IsValid}
use reactor_network_lib.Time.{Timer, TimeStamp, stamp}
use reactor_network_lib.Timers.Expiry.{NoneAt, Fits, renewed, get_expired_asserts}
use reactor_network_lib.Common.{
  ◌∷◌, ◌≡◌, Perm, ok, fault, [], none, assertion, refl, ◌++◌, false, true, arith,
}
use reactor_network_lib.Timers.Callbacks.{Ran, after_callbacks, IsArmed, handle_read_lem}
use reactor_network_lib.Timers.Cancel.{at_key, cancel_in_loop-IsValid, cancel_in_loop_lem}

abbrev once : Timer
once = record { id = 1; callback = 10; expiration = stamp 5_000; interval = 0; repeats = false }

abbrev again : Timer
again = record { id = 2; callback = 20; expiration = stamp 7_000; interval = 3_000; repeats = true }

abbrev third : Timer
third = record { id = 3; callback = 30; expiration = stamp 6_000; interval = 0; repeats = false }

abbrev two_timers : TimerQueue
two_timers = record {
  timers = (once.expiration, once) ∷ (again.expiration, again) ∷ [];
  timer_fd = none;
}

two_timers-IsValid : IsValid two_timers
two_timers-IsValid = record {
  ordered = (omega arith, (omega arith, tt));
  keyed = (refl, refl, (refl, refl, tt));
}

-- A closure that cancels timer 2 and does nothing else.
abbrev cancels : Timer → TimerQueue → TimerQueue
cancels t q = cancel_in_loop q 2

abbrev now : TimeStamp
now = stamp 8_000

none_at : NoneAt 8_000 two_timers.timers
none_at = (omega arith, (omega arith, tt))

fits : Fits (before now two_timers.timers)
unfolding before
fits = (omega arith, (omega arith, tt))

handle_read_lem_example :
    (q' : TimerQueue) × (handle_read cancels two_timers now 8_100 ≡ ok q')
    × IsValid q'
    × Ran cancels
        (λ t q v. cancel_in_loop-IsValid q 2 v)
        (before now two_timers.timers)
        (record two_timers { timers = lower_bound now two_timers.timers })
        (after_callbacks cancels (λ t q v. cancel_in_loop-IsValid q 2 v) two_timers now)
    × Perm q'.timers (
        renewed (before now two_timers.timers) now
        ++ (after_callbacks cancels (λ t q v. cancel_in_loop-IsValid q 2 v) two_timers now).timers)
    × IsArmed q' 8_100 q'.timers
handle_read_lem_example =
    handle_read_lem cancels (λ t q v. cancel_in_loop-IsValid q 2 v) two_timers now 8_100
      two_timers-IsValid none_at fits

get_expired_asserts_example : get_expired two_timers (stamp 7_000) ≡ fault assertion
get_expired_asserts_example =
    get_expired_asserts two_timers (stamp 7_000) ((once.expiration, once) ∷ []) []
      (again.expiration, again) two_timers-IsValid.ordered refl refl

-- Two timers of the same time: cancelling the first removes both.
abbrev same_time : TimerQueue
same_time = record two_timers {
  timers = (stamp 5_000, once) ∷ (stamp 5_000, record once { id = 4 }) ∷ [];
}

cancel_in_loop_lem_example :
    Perm same_time.timers (at_key 5_000 same_time.timers ++ (cancel_in_loop same_time 1).timers)
    × NoneAt 5_000 (cancel_in_loop same_time 1).timers
cancel_in_loop_lem_example =
    cancel_in_loop_lem same_time [] ((stamp 5_000, record once { id = 4 }) ∷ []) (stamp 5_000) once
      refl tt
