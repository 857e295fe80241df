-- ===== src/Timers.antt =====
-- time_utils/TimerQueue.cpp and time_utils/TimerQueue.hpp: the timers of an event loop, in a multimap
-- by time, and the descriptor that wakes the loop for the first of them.
-- `std::multimap` is its list of entries in order. A timer is reached by the map, or by the list of
-- those that have expired, and is only changed there, so its record stands for the object.
pub mod Order
pub mod Expiry
pub mod Callbacks
pub mod Cancel
pub mod Descriptor
pub mod Clock
pub mod Tests
use reactor_network_lib.Time.{
  Timer, TimeStamp, no_time, Timespec, earlier, how_much_time_from_now, restart,
}
use reactor_network_lib.Common.{
  List, [], Bool, ℕ, Option, none, ◌∷◌, some, true, if◌then◌else◌, Outcome, ◌==◌, ok, ◌>>=◌, ◌>>◌,
  assert,
}

abbrev pub Entry : Type 0
Entry = TimeStamp × Timer

-- `timer_fd` is what the descriptor was last set to.
pub record TimerQueue : Type 0 where
  pub timers : List Entry
  pub timer_fd : Option Timespec

pub create : TimerQueue
create = record { timers = []; timer_fd = none }

-- `multimap::insert`: behind the entries of the same time.
pub multimap_insert : Entry → List Entry → List Entry
multimap_insert e [] = e ∷ []
multimap_insert e (x ∷ xs) = if earlier e.0 x.0 then e ∷ x ∷ xs else x ∷ multimap_insert e xs

-- The entries before `lower_bound(now)`, and those from there on.
pub before : TimeStamp → List Entry → List Entry
before now [] = []
before now (x ∷ xs) = if earlier x.0 now then x ∷ before now xs else []

pub lower_bound : TimeStamp → List Entry → List Entry
lower_bound now [] = []
lower_bound now (x ∷ xs) = if earlier x.0 now then lower_bound now xs else x ∷ xs

-- `multimap::erase` of a key.
pub erase_key : TimeStamp → List Entry → List Entry
erase_key k [] = []
erase_key k (x ∷ xs) = let rest = erase_key k xs in if x.0.val == k.val then rest else x ∷ rest

-- `clock` is what the system clock says meanwhile.
pub reset_timer_fd : TimerQueue → TimeStamp → ℕ → TimerQueue
reset_timer_fd q expiration clock = record q {
  timer_fd = some (how_much_time_from_now expiration clock);
}

is_first : TimeStamp → List Entry → Bool
is_first when [] = true
is_first when (x ∷ xs) = earlier when x.0

pub insert : TimerQueue → Timer → Bool × TimerQueue
unfolding is_first multimap_insert
insert q t = (
  is_first t.expiration q.timers,
  record q { timers = multimap_insert (t.expiration, t) q.timers },
)

pub add_timer_in_loop : TimerQueue → Timer → ℕ → TimerQueue
unfolding reset_timer_fd
add_timer_in_loop q t clock =
    let (earliest_changed, q') = insert q t in
    if earliest_changed then reset_timer_fd q' t.expiration clock else q'

-- The assertion after `lower_bound`.
after_lower_bound : TimeStamp → List Entry → Bool
after_lower_bound now [] = true
after_lower_bound now (x ∷ xs) = earlier now x.0

pub get_expired : TimerQueue → TimeStamp → Outcome (List Entry × TimerQueue)
unfolding after_lower_bound
get_expired q now = do
  assert (after_lower_bound now (lower_bound now q.timers))
  ok (before now q.timers, record q { timers = lower_bound now q.timers })

-- The loop of `reset` over the expired timers.
pub reinsert : List Entry → TimeStamp → TimerQueue → Outcome TimerQueue
reinsert [] now q = ok q
reinsert ((k, t) ∷ es) now q =
    let again = restart t now >>= (λ t'. reinsert es now (insert q t').1) in
    let rest = reinsert es now q in if t.repeats then again else rest

first_expiration : List Entry → TimeStamp
first_expiration [] = no_time
first_expiration (x ∷ xs) = x.1.expiration

pub reset : TimerQueue → List Entry → TimeStamp → ℕ → Outcome TimerQueue
unfolding reset_timer_fd first_expiration
reset q expired now clock = do
  q' ← reinsert expired now q
  let next_expire = first_expiration q'.timers
  ok (if next_expire.valid then reset_timer_fd q' next_expire clock else q')

-- The `id` of the first timer that is `x`, if it is in the map, gives the key that is erased.
find_key : ℕ → List Entry → Option TimeStamp
find_key x [] = none
find_key x ((k, v) ∷ es) = if x == v.id then some k else find_key x es

pub cancel_in_loop : TimerQueue → ℕ → TimerQueue
unfolding find_key erase_key
cancel_in_loop q x = elim (find_key x q.timers) [
  | none ↦ q
  | some k ↦ record q { timers = erase_key k q.timers }
]

-- `run` is what a timer's closure does to the queue, through the loop's `run_at`, `run_every` and
-- `cancel`.
module _ (run : Timer → TimerQueue → TimerQueue) where
  pub run_all : List Entry → TimerQueue → TimerQueue
  run_all [] q = q
  run_all ((k, t) ∷ es) q = run_all es (run t q)

  -- `now` is the clock at the start, `clock` that at the end.
  pub handle_read : TimerQueue → TimeStamp → ℕ → Outcome TimerQueue
  unfolding run_all
  handle_read q now clock = do
    (expired, q') ← get_expired q now
    reset (run_all expired q') expired now clock
