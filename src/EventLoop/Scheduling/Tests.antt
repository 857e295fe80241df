-- ===== src/EventLoop/Scheduling/Tests.antt =====
-- A loop without timers, on which the theorem is applied.
use reactor_network_lib.EventLoop.Scheduling.{Scheduler, do_pending_functors, [], List, ◌>>=◌}
use reactor_network_lib.EventLoop.Scheduling.Threads.{
  Request, view, requests, requests_lem, after, every, cancelling,
}
use reactor_network_lib.Common.{[], List, ◌>>=◌, none, ok, ◌∷◌, ◌≡◌, refl, ℕ}

-- The loop of thread 1.
abbrev quiet : Scheduler
quiet = record {
  thread_id = 1;
  queue = record { timers = []; timer_fd = none };
  pending_functors = [];
}

-- Thread 2 asks for a timer, a little later for a repeating one, and cancels the first.
abbrev calls : List (ℕ × Request)
calls = (1000, after 7 3000000 70) ∷ (2500, every 8 5000000 80) ∷ (2600, cancelling 7) ∷ []

requests_lem_example :
    view (requests 2 calls quiet >>= (λ s. ok (do_pending_functors 9000 s)))
    ≡ view (requests 1 calls (do_pending_functors 900 quiet))
requests_lem_example = requests_lem 2 900 9000 calls quiet refl
