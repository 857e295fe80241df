-- ===== src/Tcp/Server/Serving.antt =====
-- A server whose connections answer what comes in (tcp/TcpServer.cpp with tcp/TcpConnection.cpp): new
-- connections, closes, functors, and the events of any connection that waits for input.
pub mod Objects
pub mod Answered
pub mod Steps
pub mod Home
pub mod Safety
pub mod Tests
use reactor_network_lib.Tcp.Server.{Server, object_at, ℕ, List}
use reactor_network_lib.Tcp.Server.Runs
use reactor_network_lib.Tcp.Connection.Answering.{Turn, run_turn}
use reactor_network_lib.Common.{ℕ, List, Outcome, ok, if◌then◌else◌, ◌∷◌, ◌>>=◌, []}

pub data Event : Type 0 where
  does : Runs.Event → Event
  turns : ℕ → Turn → Event

module _ (answer : List ℕ → List ℕ) where
  pub step : Event → Server → Outcome Server
  step (does e) s = Runs.step e s
  step (turns p t) s =
      if (s.objects p).channel.events.pollin
      then (do
        c ← run_turn answer t (s.objects p)
        ok (record s { objects = object_at s.objects p c }))
      else ok s

  pub run : List Event → Server → Outcome Server
  unfolding step
  run [] s = ok s
  run (e ∷ es) s = do s' ← step e s; run es s'
