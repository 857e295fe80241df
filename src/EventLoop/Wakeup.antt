-- ===== src/EventLoop/Wakeup.antt =====
-- `wakeup` reads the descriptor that it should write.
use reactor_network_lib.Common.{ℕ, ◌≡◌, false, true, ◌++◌, arith, ◌∷◌, []}
use reactor_network_lib.EventLoop.{EventFd, queue_in_loop, quit_loop, wakeup, EventLoop}

module _ (E : EventFd) where
  -- Where a functor is queued, from any thread, a descriptor that was not readable stays so: a loop
  -- that waits in its poll is not woken, though the functor is in its queue.
  pub queue_in_loop_does_not_wake :
      (thread cb : ℕ) (l : EventLoop E)
      → E.readable l.wakeup_fd ≡ false
      → let l' = queue_in_loop E thread cb l in
        (E.readable l'.wakeup_fd ≡ false) × (l'.pending_functors ≡ l.pending_functors ++ cb ∷ [])
  unfolding queue_in_loop wakeup
  queue_in_loop_does_not_wake thread cb l h = ground (arith, E.read_drains l.wakeup_fd h)

  -- `quit` from any thread sets the flag but leaves a descriptor unreadable that was so: a loop
  -- that waits in its poll is not woken.
  pub quit_does_not_wake :
      (thread : ℕ) (l : EventLoop E)
      → E.readable l.wakeup_fd ≡ false
      → let l' = quit_loop E thread l in (E.readable l'.wakeup_fd ≡ false) × (l'.quit ≡ true)
  unfolding quit_loop wakeup
  quit_does_not_wake thread l h = ground (arith, E.read_drains l.wakeup_fd h)
