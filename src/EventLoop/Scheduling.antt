-- ===== src/EventLoop/Scheduling.antt =====
-- `run_at`, `run_after`, `run_every` and `cancel` of event_loop/EventLoop.cpp, with `add_timer` and `cancel`
-- of time_utils/TimerQueue.cpp: how the timers of a loop are asked for, from its own thread or another one.
-- `clock` is what the system clock says meanwhile. The pointer that `make_shared` returns is an argument.
pub mod Threads
pub mod Tests
use reactor_network_lib.Time.{Timer, TimeStamp, stamp, new_timer, add_time}
use reactor_network_lib.Timers.{TimerQueue, add_timer_in_loop, cancel_in_loop}
use reactor_network_lib.Common.{ℕ, List, if◌then◌else◌, Outcome, [], ◌==◌, ◌∷◌, ◌>>=◌, ◌++◌, ok}

-- The functors that `add_timer` and `cancel` hand to the loop.
pub data Functor : Type 0 where
  adds : Timer → Functor
  cancels : ℕ → Functor

pub record Scheduler : Type 0 where
  pub thread_id : ℕ
  pub queue : TimerQueue
  pub pending_functors : List Functor

pub perform : ℕ → Functor → TimerQueue → TimerQueue
perform clock (adds t) q = add_timer_in_loop q t clock
perform clock (cancels x) q = cancel_in_loop q x

-- `EventLoop::run_in_loop`; the wake-up is in EventLoop.
pub run_in_loop : ℕ → ℕ → Functor → Scheduler → Scheduler
unfolding perform
run_in_loop thread clock f s =
    if s.thread_id == thread
    then record s { queue = perform clock f s.queue }
    else record s { pending_functors = s.pending_functors ++ f ∷ [] }

-- `TimerQueue::add_timer`, which returns the pointer as a TimerId.
pub add_timer : ℕ → ℕ → ℕ → ℕ → TimeStamp → ℕ → Scheduler → ℕ × Scheduler
unfolding run_in_loop
add_timer thread clock id cb when interval s =
    (id, run_in_loop thread clock (adds (new_timer id cb when interval)) s)

-- `TimerQueue::cancel`, by way of `EventLoop::cancel`.
pub cancel : ℕ → ℕ → ℕ → Scheduler → Scheduler
unfolding run_in_loop
cancel thread clock id s = run_in_loop thread clock (cancels id) s

pub run_at : ℕ → ℕ → ℕ → TimeStamp → ℕ → Scheduler → ℕ × Scheduler
unfolding add_timer
run_at thread clock id time cb s = add_timer thread clock id cb time 0 s

pub run_after : ℕ → ℕ → ℕ → ℕ → ℕ → Scheduler → Outcome (ℕ × Scheduler)
unfolding run_at
run_after thread clock id delay cb s = do
  time ← add_time (stamp clock) delay
  ok (run_at thread clock id time cb s)

pub run_every : ℕ → ℕ → ℕ → ℕ → ℕ → Scheduler → Outcome (ℕ × Scheduler)
unfolding add_timer
run_every thread clock id interval cb s = do
  time ← add_time (stamp clock) interval
  ok (add_timer thread clock id cb time interval s)

perform_all : ℕ → List Functor → TimerQueue → TimerQueue
perform_all clock [] q = q
perform_all clock (f ∷ fs) q = perform_all clock fs (perform clock f q)

-- `do_pending_functors` of the loop.
pub do_pending_functors : ℕ → Scheduler → Scheduler
unfolding perform_all
do_pending_functors clock s = record s {
  queue = perform_all clock s.pending_functors s.queue;
  pending_functors = [];
}
