-- ===== src/EventLoop/Loop.antt =====
-- EventLoop::loop of event_loop/EventLoop.cpp, whole: the poll, the callbacks of the active channels and
-- the functors that wait, round after round until `quit`. It runs in the loop's thread, and what other
-- threads queue meanwhile is part of what `act` and `run` do.
pub mod Runs
pub mod Tests
use reactor_network_lib.EventLoop.Round.{Polling, round}
use reactor_network_lib.Channel.{Call}
use reactor_network_lib.Common.{
  Bool, ◌>>=◌, ℕ, List, ok, ◌∷◌, true, Outcome, [], ◌>>◌, false, assert, not, if◌then◌else◌,
}

module _ (P : Polling) where
  pub record World : Type 0 where
    pub poller : P.State
    pub looping : Bool
    pub quit : Bool
    pub calling_pending_functors : Bool
    pub pending_functors : List ℕ

  -- How far a loop has come: it is over, or it waits in its poll.
  pub data Stage : Type 0 where
    over : World → Stage
    waits : World → Stage

  pub ended : Stage → Stage
  ended (over w) = over (record w { looping = false })
  ended (waits w) = waits w

  -- The poller as a part of its loop.
  abbrev pub within : Polling
  within = record {
    State = World;
    Answer = P.Answer;
    store = λ w. P.store w.poller;
    put = λ p c w. record w { poller = P.put p c w.poller };
    poll =
        λ answer w. P.poll answer w.poller >>= λ (active, s). ok (active, record w { poller = s });
  }

  -- `act` is what the callbacks of a channel do, `run` what a functor does, `kernel` what the system call
  -- of `poll` returns.
  module _ (act : ℕ → List Call → World → World) (run : ℕ → World → World)
      (kernel : ℕ → World → P.Answer) where
    pub run_all : List ℕ → World → World
    run_all [] w = w
    run_all (f ∷ fs) w = run_all fs (run f w)

    pub do_pending_functors : World → World
    unfolding run_all
    do_pending_functors w =
        let functors = w.pending_functors in
        let w' =
          run_all functors (record w { calling_pending_functors = true; pending_functors = [] }) in
        record w' { calling_pending_functors = false }

    -- The `while`: `times` are those at which the poll returns. After the last of them it has not
    -- returned yet, unless the loop is over.
    pub loop_rounds : List ℕ → World → Outcome (List (List (ℕ × List Call)) × Stage)
    unfolding do_pending_functors
    loop_rounds [] w = ok ([], if w.quit then over w else waits w)
    loop_rounds (now ∷ times) w =
        let rest = round within act now (kernel now w) w >>= λ (calls, w').
        (loop_rounds times (do_pending_functors w') >>= λ (more, r). ok (calls ∷ more, r)) in
        if not w.quit then rest else ok ([], over w)

    pub loop : List ℕ → World → Outcome (List (List (ℕ × List Call)) × Stage)
    unfolding loop_rounds ended
    loop times w = do
      assert (not w.looping)
      (trace, r) ← loop_rounds times (record w { looping = true; quit = false })
      ok (trace, ended r)
