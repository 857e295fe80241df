-- ===== src/EventLoop/Round.antt =====
-- One round of the `while` of EventLoop::loop (event_loop/EventLoop.cpp): the poll, then `handle_event` of
-- each active channel. The loop's poller is a parameter, as in PollerInterface, and the children fill it
-- with the two pollers.
-- `act` is what the callbacks of one channel do, to any channel and to the poller; a round returns which
-- callbacks were run.
pub mod Calls
pub mod Runs
pub mod Poll
pub mod Epoll
pub mod Tests
use reactor_network_lib.Channel.{Channel, Call, handle_event}
use reactor_network_lib.Channel.Store.{Store}
use reactor_network_lib.Common.{ℕ, Outcome, List, ◌∷◌, ok, ◌>>=◌, []}

-- What the loop uses of a poller in a round; `Answer` is what the system call of `poll` returns.
pub record Polling : Type 1 where
  pub State : Type 0
  pub Answer : Type 0
  pub store : State → Store
  pub put : ℕ → Channel → State → State
  pub poll : Answer → State → Outcome (List ℕ × State)

module _ (P : Polling) (act : ℕ → List Call → P.State → P.State) where
  pub handle_active : ℕ → List ℕ → P.State → List (ℕ × List Call) × P.State
  handle_active poll_return_time [] s = ([], s)
  handle_active poll_return_time (p ∷ ps) s =
      let (calls, c) = handle_event (P.store s p) poll_return_time in
      let s' = act p calls (P.put p c s) in
      let (rest, s'') = handle_active poll_return_time ps s' in ((p, calls) ∷ rest, s'')

  pub round : ℕ → P.Answer → P.State → Outcome (List (ℕ × List Call) × P.State)
  unfolding handle_active
  round poll_return_time answer s = do
    (active_channels, s') ← P.poll answer s
    ok (handle_active poll_return_time active_channels s')
