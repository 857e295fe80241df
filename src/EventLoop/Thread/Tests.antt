-- ===== src/EventLoop/Thread/Tests.antt =====
-- A thread that is started and at once destroyed, on which the theorems are applied.
use reactor_network_lib.EventLoop.Thread.{
  EventLoopThread, Reaches, create, start_loop, check_loop, publish, enter_loop, destroy, starts,
  checks, publishes, here, later, returned, joins, joined, published, looping, true, ◌≡◌,
}
use reactor_network_lib.EventLoop.Thread.Runs.{IsValid, thread_lem, lost_lem, joins_lem}
use reactor_network_lib.Common.{refl, true, ◌≡◌, false}

-- Started, with its loop known but not begun.
abbrev known : EventLoopThread
known = record { owner = returned; worker = published; loop = true; quit = false; exiting = false }

-- The same with its loop begun.
abbrev running : EventLoopThread
running = record { owner = returned; worker = looping; loop = true; quit = false; exiting = false }

known-Reaches : Reaches create known
unfolding create start_loop publish check_loop
known-Reaches = later (starts refl) (later (publishes refl) (later (checks refl) here))

thread_lem_example : IsValid known
thread_lem_example = thread_lem known known-Reaches

lost_lem_example : (enter_loop (destroy known)).owner ≡ joins
lost_lem_example = lost_lem known (enter_loop (destroy known)) refl refl refl here tt

joins_lem_example : (t : EventLoopThread) × Reaches (destroy running) t × (t.owner ≡ joined)
joins_lem_example = joins_lem running (destroy running) refl refl refl here
