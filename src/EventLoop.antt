-- ===== src/EventLoop.antt =====
-- event_loop/EventLoop.hpp and event_loop/EventLoop.cpp: the loop of one thread, its queue of functors
-- and the descriptor that is to wake it.
-- A functor is a number, `run` what it does to its loop, in the loop's thread. `thread` is the thread
-- that makes a call. LOG_FATAL logs a line and goes on; the logger ends the program later.
pub mod Pending
pub mod Wakeup
pub mod Thread
pub mod Scheduling
pub mod Registry
pub mod Channels
pub mod Round
pub mod Loop
pub mod Tests
use reactor_network_lib.Common.{
  ℕ, Bool, false, if◌then◌else◌, true, ◌++◌, List, ◌≡◌, [], ◌==◌, not, ◌∷◌, Outcome, ◌+◌, ◌||◌,
  ◌>>◌, assert, ok, Option, fault, assertion, some, none,
}

-- `eventfd`: what the program relies on is that reading it does not make it readable.
pub record EventFd : Type 1 where
  pub State : Type 0
  pub read : State → ℕ × State
  pub readable : State → Bool
  pub read_drains : (s : State) → readable s ≡ false → readable (read s).1 ≡ false

module _ (E : EventFd) where
  pub record EventLoop : Type 0 where
    pub looping : Bool
    pub quit : Bool
    pub calling_pending_functors : Bool
    pub thread_id : ℕ
    pub wakeup_fd : E.State
    pub pending_functors : List ℕ
    pub fatal_lines : ℕ
    pub error_lines : ℕ

  -- What `eventfd` returns; the program aborts where it fails.
  pub create_event_fd : Option E.State → Outcome E.State
  create_event_fd none = fault assertion
  create_event_fd (some fd) = ok fd

  -- The constructor, once the thread has no other loop.
  pub create : ℕ → E.State → EventLoop
  create thread fd = record {
    looping = false;
    quit = false;
    calling_pending_functors = false;
    thread_id = thread;
    wakeup_fd = fd;
    pending_functors = [];
    fatal_lines = 0;
    error_lines = 0;
  }

  pub is_in_loop_thread : ℕ → EventLoop → Bool
  is_in_loop_thread thread l = l.thread_id == thread

  -- It logs a line, and goes on.
  pub abort_not_in_loop_thread : EventLoop → EventLoop
  abort_not_in_loop_thread l = record l { fatal_lines = l.fatal_lines + 1 }

  pub assert_in_loop_thread : ℕ → EventLoop → EventLoop
  unfolding is_in_loop_thread abort_not_in_loop_thread
  assert_in_loop_thread thread l =
      if not (is_in_loop_thread thread l) then abort_not_in_loop_thread l else l

  -- The body that `wakeup` and `handle_read` share: both read the descriptor.
  read_wakeup_fd : EventLoop → EventLoop
  read_wakeup_fd l =
      let (n, fd) = E.read l.wakeup_fd in
      if n == 8
      then record l { wakeup_fd = fd }
      else record l { wakeup_fd = fd; error_lines = l.error_lines + 1 }

  pub wakeup : EventLoop → EventLoop
  unfolding read_wakeup_fd
  wakeup l = read_wakeup_fd l

  pub handle_read : EventLoop → EventLoop
  unfolding read_wakeup_fd
  handle_read l = read_wakeup_fd l

  pub quit_loop : ℕ → EventLoop → EventLoop
  unfolding is_in_loop_thread
  quit_loop thread l =
      let l' : EventLoop = record l { quit = true } in
      if not (is_in_loop_thread thread l') then wakeup l' else l'

  pub queue_in_loop : ℕ → ℕ → EventLoop → EventLoop
  unfolding is_in_loop_thread
  queue_in_loop thread cb l =
      let l' : EventLoop = record l { pending_functors = l.pending_functors ++ cb ∷ [] } in
      if not (is_in_loop_thread thread l') || l'.calling_pending_functors then wakeup l' else l'

  module _ (run : ℕ → EventLoop → EventLoop) where
    pub run_in_loop : ℕ → ℕ → EventLoop → EventLoop
    unfolding is_in_loop_thread
    run_in_loop thread cb l =
        if is_in_loop_thread thread l then run cb l else queue_in_loop thread cb l

    pub run_all : List ℕ → EventLoop → EventLoop
    run_all [] l = l
    run_all (f ∷ fs) l = run_all fs (run f l)

    -- The functors are swapped out first, so those queued meanwhile wait for the next round.
    pub do_pending_functors : EventLoop → EventLoop
    unfolding run_all
    do_pending_functors l =
        let functors = l.pending_functors in
        let l' : EventLoop = record l { calling_pending_functors = true; pending_functors = [] } in
        let l'' = run_all functors l' in record l'' { calling_pending_functors = false }

    -- The rounds of the loop: `rounds` are what the active channels do in each, after its poll.
    pub loop_rounds : List (EventLoop → EventLoop) → EventLoop → EventLoop
    loop_rounds [] l = l
    loop_rounds (r ∷ rs) l =
        let rest = loop_rounds rs (do_pending_functors (r l)) in if not l.quit then rest else l

    pub loop : ℕ → List (EventLoop → EventLoop) → EventLoop → Outcome EventLoop
    unfolding loop_rounds assert_in_loop_thread
    loop thread rounds l = do
      assert (not l.looping)
      let l' = assert_in_loop_thread thread l
      let l'' = loop_rounds rounds (record l' { looping = true; quit = false })
      ok (record l'' { looping = false })
