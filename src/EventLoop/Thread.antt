-- ===== src/EventLoop/Thread.antt =====
-- event_loop/EventLoopThread.hpp and event_loop/EventLoopThread.cpp: a thread that runs one loop, and the
-- owner that starts and joins it. The two run side by side, and a step is what either does at once: a
-- section under the mutex, a write of `quit_`, or the start of `EventLoop::loop`, which resets `quit_`.
pub mod Runs
pub mod Tests
use reactor_network_lib.Common.{Bool, false, if◌then◌else◌, true, ◌≡◌}

-- Where the owner stands: before `start_loop`, in its wait, after it, in `join`, and after that.
pub data Owner : Type 0 where
  idle waits returned joins joined crashed : Owner

-- Where `thread_func` stands: its loop is made, made known, runs, and is gone.
pub data Worker : Type 0 where
  absent begun published looping gone : Worker

pub record EventLoopThread : Type 0 where
  pub owner : Owner
  pub worker : Worker
  -- Whether `loop_` is set, and the `quit_` of the loop.
  pub loop : Bool
  pub quit : Bool
  pub exiting : Bool

-- The constructor.
unfoldable pub create : EventLoopThread
create = record { owner = idle; worker = absent; loop = false; quit = false; exiting = false }

-- `start_loop` makes the thread, and then waits for `loop_`.
unfoldable pub start_loop : EventLoopThread → EventLoopThread
start_loop t = record t { owner = waits; worker = begun }

-- One turn of the wait, when the condition variable or nothing at all wakes it.
unfoldable pub check_loop : EventLoopThread → EventLoopThread
check_loop t = if t.loop then record t { owner = returned } else t

-- `thread_func` up to its call of `loop`.
unfoldable pub publish : EventLoopThread → EventLoopThread
publish t = record t { worker = published; loop = true }

-- `EventLoop::loop` begins.
unfoldable pub enter_loop : EventLoopThread → EventLoopThread
enter_loop t = record t { worker = looping; quit = false }

-- The test of the `while` of `EventLoop::loop`, after which `thread_func` ends.
unfoldable pub test_quit : EventLoopThread → EventLoopThread
test_quit t = if t.quit then record t { worker = gone } else t

-- The loop's own channels and functors may call `EventLoop::quit`.
unfoldable pub quit_loop : EventLoopThread → EventLoopThread
quit_loop t = record t { quit = true }

-- Whether `loop_` points to a loop that exists.
abbrev pub has_loop : EventLoopThread → Bool
has_loop t = elim t.worker [ published ↦ t.loop | looping ↦ t.loop | _ ↦ false ]

-- The destructor up to `join`: it calls `loop_->quit()`, whatever `loop_` is.
unfoldable pub destroy : EventLoopThread → EventLoopThread
destroy t =
    let t' : EventLoopThread = record t { exiting = true } in
    if has_loop t' then record t' { owner = joins; quit = true } else record t' { owner = crashed }

unfoldable pub join : EventLoopThread → EventLoopThread
join t = record t { owner = joined }

-- A step, by where its thread stands.
pub data Step : EventLoopThread → EventLoopThread → Type 0 where
  starts : {t : EventLoopThread} → t.owner ≡ idle → Step t (start_loop t)
  checks : {t : EventLoopThread} → t.owner ≡ waits → Step t (check_loop t)
  publishes : {t : EventLoopThread} → t.worker ≡ begun → Step t (publish t)
  enters : {t : EventLoopThread} → t.worker ≡ published → Step t (enter_loop t)
  tests : {t : EventLoopThread} → t.worker ≡ looping → Step t (test_quit t)
  quits : {t : EventLoopThread} → t.worker ≡ looping → Step t (quit_loop t)
  destroys_idle : {t : EventLoopThread} → t.owner ≡ idle → Step t (destroy t)
  destroys : {t : EventLoopThread} → t.owner ≡ returned → Step t (destroy t)
  joins_gone : {t : EventLoopThread} → t.owner ≡ joins → t.worker ≡ gone → Step t (join t)

pub data Reaches : EventLoopThread → EventLoopThread → Type 0 where
  here : {t : EventLoopThread} → Reaches t t
  later : {t t' t'' : EventLoopThread} → Step t t' → Reaches t' t'' → Reaches t t''
