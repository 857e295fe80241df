-- ===== src/Timers/Callbacks.antt =====
-- The whole of `handle_read`, with closures that may add and cancel timers while it runs.
use reactor_network_lib.Common.{◌≡◌, ℕ, List, ok, Perm, ◌++◌, arith, ◌∷◌, some, [], refl}
use reactor_network_lib.Timers.{
  TimerQueue, reset, Entry, run_all, handle_read, reinsert, before, lower_bound, reset_timer_fd,
}
use reactor_network_lib.Time.{Timer, TimeStamp, how_much_time_from_now}
use reactor_network_lib.Timers.Order.{IsValid, Keyed, lower_bound-Above, lower_bound-Keyed}
use reactor_network_lib.Timers.Expiry.{NoneAt, Fits, renewed, get_expired_lem, reinsert_lem}

-- The descriptor is set for the first timer, if there is one.
abbrev pub IsArmed : TimerQueue → ℕ → List Entry → Type 0
IsArmed q clock [] = Unit {0}
IsArmed q clock (x ∷ xs) = q.timer_fd ≡ some (how_much_time_from_now x.0 clock)

reset-IsArmed :
    (q : TimerQueue) (xs es : List Entry) (now : TimeStamp) (clock : ℕ) (q' : TimerQueue)
    → reinsert es now q ≡ ok q'
    → q'.timers ≡ xs
    → Keyed xs
    → (q'' : TimerQueue) × (reset q es now clock ≡ ok q'')
      × (q''.timers ≡ xs)
      × IsArmed q'' clock xs
unfolding reset
reset-IsArmed q [] es now clock q' ran split keyed = (q', ground arith, split, tt)
reset-IsArmed q (x ∷ xs) es now clock q' ran split keyed =
    (reset_timer_fd q' x.0 clock, ground arith, split, refl)

module _ (run : Timer → TimerQueue → TimerQueue)
    (run-IsValid : (t : Timer) (q : TimerQueue) → IsValid q → IsValid (run t q)) where
  run_all-IsValid : (es : List Entry) (q : TimerQueue) → IsValid q → IsValid (run_all run es q)
  unfolding run_all
  run_all-IsValid [] q v = v
  run_all-IsValid ((k, t) ∷ es) q v = run_all-IsValid es (run t q) (run-IsValid t q v)

  -- The closures of the timers run once each, in their order.
  pub data Ran : List Entry → TimerQueue → TimerQueue → Type 0 where
    none_left : {q : TimerQueue} → Ran [] q q
    runs :
        {k : TimeStamp} {t : Timer} {es : List Entry} {q q' : TimerQueue}
        → Ran es (run t q) q'
        → Ran ((k, t) ∷ es) q q'

  run_all-Ran : (es : List Entry) (q : TimerQueue) → Ran es q (run_all run es q)
  unfolding run_all
  run_all-Ran [] q = none_left
  run_all-Ran ((k, t) ∷ es) q = runs (run_all-Ran es (run t q))

  -- What the closures of the expired timers leave.
  abbrev pub after_callbacks : TimerQueue → TimeStamp → TimerQueue
  after_callbacks q now =
      run_all run (before now q.timers) (record q { timers = lower_bound now q.timers })

  -- On a valid map with no timer due at exactly `now` and intervals below 2^31 microseconds, and
  -- for closures that keep the map valid: `handle_read` ends without a fault, and runs the closures of
  -- the timers due before `now` once each, in the order of the map, on the queue without these; the
  -- map is then valid and holds what the closures left and every expired timer that repeats, under the
  -- time an interval after `now`, also one that a closure has cancelled; and the descriptor is set for
  -- the first of them.
  pub handle_read_lem :
      (q : TimerQueue) (now : TimeStamp) (clock : ℕ)
      → IsValid q
      → NoneAt now.val q.timers
      → Fits (before now q.timers)
      → (q' : TimerQueue) × (handle_read run q now clock ≡ ok q')
        × IsValid q'
        × Ran
            (before now q.timers)
            (record q { timers = lower_bound now q.timers })
            (after_callbacks q now)
        × Perm q'.timers (renewed (before now q.timers) now ++ (after_callbacks q now).timers)
        × IsArmed q' clock q'.timers
  unfolding handle_read
  handle_read_lem q now clock v none_at fits =
      let (got, _, _, _, _) = get_expired_lem q now v.ordered none_at in
      let left : IsValid (record q { timers = lower_bound now q.timers }) = record {
        ordered = (lower_bound-Above 0 now q.timers v.ordered).0;
        keyed = lower_bound-Keyed now q.timers v.keyed;
      } in
      let (q', ran, valid, perm) =
        reinsert_lem (before now q.timers) now (after_callbacks q now)
          (run_all-IsValid (before now q.timers) _ left) fits in
      let (q'', set, same, armed) =
        reset-IsArmed (after_callbacks q now) q'.timers (before now q.timers) now clock q' ran refl
          valid.keyed in
      (
        q'',
        rw got set,
        record { ordered = rw same valid.ordered; keyed = rw same valid.keyed },
        run_all-Ran (before now q.timers) _,
        rw same perm,
        rw same armed,
      )
