-- ===== src/EventLoop/Pending.antt =====
-- The functors of a round, and those queued while it runs.
use reactor_network_lib.Common.{
  ℕ, List, ◌≡◌, true, ◌++◌, ◌∷◌, arith, sym, false, [], append-nil, Bool-cases, refl, ◌∙◌, inl, ap,
  inr, append_assoc,
}
use reactor_network_lib.EventLoop.{
  EventFd, EventLoop, loop, loop_rounds, quit_loop, is_in_loop_thread, run_all, do_pending_functors,
}

module _ (E : EventFd) (run : ℕ → EventLoop E → EventLoop E) (queued : ℕ → List ℕ)
    (queues : (f : ℕ) (l : EventLoop E)
      → (run f l).pending_functors ≡ l.pending_functors ++ queued f) where
  abbrev all_queued : List ℕ → List ℕ
  all_queued [] = []
  all_queued (f ∷ fs) = queued f ++ all_queued fs

  run_all-pending :
      (fs : List ℕ) (l : EventLoop E)
      → (run_all E run fs l).pending_functors ≡ l.pending_functors ++ all_queued fs
  unfolding run_all
  run_all-pending [] l = sym (append-nil l.pending_functors)
  run_all-pending (f ∷ fs) l =
      run_all-pending fs (run f l)
      ∙ ap (λ t. t ++ all_queued fs) (queues f l)
      ∙ append_assoc l.pending_functors (queued f) (all_queued fs)

  -- Where every functor only queues others, `do_pending_functors` runs those that were there, once
  -- each in order, and leaves exactly those that they queued, in the order in which they did, with
  -- the flag `calling_pending_functors` down.
  pub do_pending_functors_lem :
      (l : EventLoop E)
      → let l' = do_pending_functors E run l in
        (l'.pending_functors ≡ all_queued l.pending_functors)
        × (l'.calling_pending_functors ≡ false)
  unfolding do_pending_functors
  do_pending_functors_lem l = (
    run_all-pending l.pending_functors
        (record l { calling_pending_functors = true; pending_functors = [] }),
    refl,
  )

module _ (E : EventFd) (run : ℕ → EventLoop E → EventLoop E) where
  -- A `quit` in the loop's thread that comes before `loop` is lost: the loop begins by clearing
  -- it, and does the same rounds as without it.
  pub quit_before_loop_lost :
      (thread : ℕ) (rounds : List (EventLoop E → EventLoop E)) (l : EventLoop E)
      → is_in_loop_thread E thread l ≡ true
      → loop E run thread rounds (quit_loop E thread l) ≡ loop E run thread rounds l
  unfolding loop quit_loop
  quit_before_loop_lost thread rounds l here = ground arith

  -- Where some first rounds of the loop end with `quit` set, any further rounds change nothing.
  pub loop_rounds-quit :
      (rounds more : List (EventLoop E → EventLoop E)) (l : EventLoop E)
      → (loop_rounds E run rounds l).quit ≡ true
      → loop_rounds E run (rounds ++ more) l ≡ loop_rounds E run rounds l
  unfolding loop_rounds
  loop_rounds-quit [] [] l h = refl
  loop_rounds-quit [] (r ∷ more) l h = ground arith
  loop_rounds-quit (r ∷ rounds) more l h = elim (Bool-cases l.quit) [
    | inl done ↦ ground arith
    | inr on ↦ ground (arith, loop_rounds-quit rounds more (do_pending_functors E run (r l)))
  ]
