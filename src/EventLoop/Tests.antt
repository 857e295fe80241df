-- ===== src/EventLoop/Tests.antt =====
-- A loop of thread 1 on which the theorems are applied.
use reactor_network_lib.EventLoop.{
  do_pending_functors, EventFd, EventLoop, do_pending_functors, queue_in_loop,
}
use reactor_network_lib.Common.{
  ℕ, true, if◌then◌else◌, ◌++◌, ◌≡◌, ◌∷◌, false, [], ◌==◌, ◌+◌, not, refl,
}
use reactor_network_lib.EventLoop.Pending.{do_pending_functors_lem}
use reactor_network_lib.EventLoop.Wakeup.{queue_in_loop_does_not_wake}

-- A counter that reads as 8 bytes once it is written.
abbrev counter : EventFd
counter = record {
  State = ℕ;
  read = λ n. (if n == 0 then 0 else 8, 0);
  readable = λ n. not (n == 0);
  read_drains = λ n h. refl;
}

abbrev waiting : EventLoop counter
waiting = record {
  looping = true;
  quit = false;
  calling_pending_functors = false;
  thread_id = 1;
  wakeup_fd = 0;
  pending_functors = 7 ∷ 8 ∷ [];
  fatal_lines = 0;
  error_lines = 0;
}

-- The functor `f` queues the functor `f + 1`.
abbrev run : ℕ → EventLoop counter → EventLoop counter
run f l = record l { pending_functors = l.pending_functors ++ (f + 1) ∷ [] }

do_pending_functors_lem_example :
    let l' = do_pending_functors counter run waiting in
    (l'.pending_functors ≡ 8 ∷ 9 ∷ []) × (l'.calling_pending_functors ≡ false)
do_pending_functors_lem_example =
    do_pending_functors_lem counter run (λ f. (f + 1) ∷ []) (λ f l. refl) waiting

queue_in_loop_does_not_wake_example :
    let l' = queue_in_loop counter 2 9 waiting in
    (counter.readable l'.wakeup_fd ≡ false) × (l'.pending_functors ≡ 7 ∷ 8 ∷ 9 ∷ [])
queue_in_loop_does_not_wake_example = queue_in_loop_does_not_wake counter 2 9 waiting refl
