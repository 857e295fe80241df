-- ===== src/EventLoop/Registry.antt =====
-- The constructor and the destructor of event_loop/EventLoop.cpp, as far as they keep
-- `t_loop_in_this_thread`: which loop each thread has, by its pointer.
pub mod Runs
use reactor_network_lib.Common.{
  ℕ, Option, Bool, if◌then◌else◌, true, ◌==◌, Outcome, some, ◌>>◌, false, ◌+◌, assert, not, none,
  ok,
}

-- `alive` says of each loop, by its pointer, whether it exists, and `thread_of` in which thread.
pub record Registry : Type 0 where
  pub t_loop_in_this_thread : ℕ → Option ℕ
  pub alive : ℕ → Bool
  pub thread_of : ℕ → ℕ
  pub fatal_lines : ℕ

abbrev pub nobody : Option ℕ → Bool
nobody none = true
nobody (some l) = false

-- The constructor of the loop `l`: where its thread has a loop, it logs a fatal line and goes on.
unfoldable pub create_loop : ℕ → ℕ → Registry → Registry
create_loop thread l r =
    let r' : Registry = record r {
      alive = λ q. if q == l then true else r.alive q;
      thread_of = λ q. if q == l then thread else r.thread_of q;
    } in
    if nobody (r'.t_loop_in_this_thread thread)
    then record r' {
      t_loop_in_this_thread = λ t. if t == thread then some l else r.t_loop_in_this_thread t;
    }
    else record r' { fatal_lines = r'.fatal_lines + 1 }

-- The destructor, in the thread that calls it: the thread has no loop after it, whichever it had.
unfoldable pub destroy_loop : ℕ → ℕ → Bool → Registry → Outcome Registry
destroy_loop thread l looping r = do
  assert (not looping)
  ok (record r {
    alive = λ q. if q == l then false else r.alive q;
    t_loop_in_this_thread = λ t. if t == thread then none else r.t_loop_in_this_thread t;
  })

pub get_event_loop_of_current_thread : ℕ → Registry → Option ℕ
get_event_loop_of_current_thread thread r = r.t_loop_in_this_thread thread
