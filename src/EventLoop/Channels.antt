-- ===== src/EventLoop/Channels.antt =====
-- `update_channel` and `remove_channel` of event_loop/EventLoop.cpp, with `update` of event_loop/Channel.cpp:
-- the owners of channels reach the poller by way of their loop.
pub mod Calls
use reactor_network_lib.PollerInterface.{PollerInterface}
use reactor_network_lib.Common.{ℕ, if◌then◌else◌, Outcome, not, ◌>>◌, ◌==◌, assert, ◌+◌, ◌>>=◌, ok}

module _ (P : PollerInterface) where
  -- A loop by its pointer, with its thread and its poller.
  pub record Loop : Type 0 where
    pub this : ℕ
    pub thread_id : ℕ
    pub poller : P.State
    pub fatal_lines : ℕ

  -- From another thread a fatal line is logged, and the call goes on.
  assert_in_loop_thread : ℕ → Loop → Loop
  assert_in_loop_thread thread l =
      if not (l.thread_id == thread) then record l { fatal_lines = l.fatal_lines + 1 } else l

  module _ (owner_loop : ℕ → ℕ) where
    pub update_channel : ℕ → ℕ → Loop → Outcome Loop
    unfolding assert_in_loop_thread
    update_channel thread p l = do
      assert (owner_loop p == l.this)
      let l' = assert_in_loop_thread thread l
      poller ← P.update_channel p l'.poller
      ok (record l' { poller = poller })

    pub remove_channel : ℕ → ℕ → Loop → Outcome Loop
    unfolding assert_in_loop_thread
    remove_channel thread p l = do
      assert (owner_loop p == l.this)
      let l' = assert_in_loop_thread thread l
      poller ← P.remove_channel p l'.poller
      ok (record l' { poller = poller })

    -- `Channel::update`
    pub update : ℕ → ℕ → Loop → Outcome Loop
    unfolding update_channel
    update thread p l = update_channel thread p l
