-- ===== src/EventLoop/Loop/Runs.antt =====
-- What a loop runs until it ends.
use reactor_network_lib.EventLoop.Loop.{
  World, within, Stage, over, waits, ended, run_all, do_pending_functors, loop_rounds, loop, List,
  ℕ,
}
use reactor_network_lib.EventLoop.Round.{Polling, round}
use reactor_network_lib.EventLoop.Round.Calls.{calls_of}
use reactor_network_lib.EventLoop.Round.Runs.{IsSound, Gentle, Lawful, round_lem}
use reactor_network_lib.Channel.{Call}
use reactor_network_lib.Common.{
  List, ℕ, ◌≡◌, ◌∷◌, ok, true, false, [], Bool-cases, refl, inl, inr, ap, if◌then◌else◌, not,
}

module _ (P : Polling) (L : IsSound P) where
  abbrev pub world_of : Stage P → World P
  world_of (over w) = w
  world_of (waits w) = w

  pub within_polls :
      (answer : P.Answer) (w : World P)
      → L.IsValid w.poller
      → L.Fits answer w.poller
      → (active : List ℕ) × (w' : World P) × ((within P).poll answer w ≡ ok (active, w'))
        × L.IsValid w'.poller
        × ((now : ℕ) → calls_of now (P.store w'.poller) active ≡ L.due now answer w.poller)
  within_polls answer w v fits =
      let (active, t, ran, valid, heard) = L.polls answer w.poller v fits in
      (active, record w { poller = t }, rw ran refl, valid, heard)

  abbrev pub within-IsSound : IsSound (within P)
  within-IsSound = record {
    IsValid = λ w. L.IsValid w.poller;
    Fits = λ answer w. L.Fits answer w.poller;
    due = λ now answer w. L.due now answer w.poller;
    store-put = λ p c w q. L.store-put p c w.poller q;
    put-IsValid = λ p c w. L.put-IsValid p c w.poller;
    polls = within_polls;
  }

  module _ (act : ℕ → List Call → World P → World P) (run : ℕ → World P → World P)
      (kernel : ℕ → World P → P.Answer) (gentle : Gentle (within P) within-IsSound act)
      (lawful : Lawful (within P) within-IsSound act)
      (keeps : (f : ℕ) (w : World P) → L.IsValid w.poller → L.IsValid (run f w).poller)
      (documented : (now : ℕ) (w : World P)
        → L.IsValid w.poller
        → L.Fits (kernel now w) w.poller) where
    run_all-IsValid :
        (fs : List ℕ) (w : World P)
        → L.IsValid w.poller
        → L.IsValid (run_all P act run kernel fs w).poller
    unfolding run_all
    run_all-IsValid [] w v = v
    run_all-IsValid (f ∷ fs) w v = run_all-IsValid fs (run f w) (keeps f w v)

    -- The functors run one after the other.
    pub data Ran : List ℕ → World P → World P → Type 0 where
      none_left : {w : World P} → Ran [] w w
      runs : {f : ℕ} {fs : List ℕ} {w w' : World P} → Ran fs (run f w) w' → Ran (f ∷ fs) w w'

    -- One round: the callbacks that the answer calls for, then the functors that wait. The loop is over
    -- where a round would begin after `quit`, and only there.
    pub data Turns : List ℕ → World P → List (List (ℕ × List Call)) → Stage P → Type 0 where
      quits :
          {times : List ℕ} {w : World P}
          → w.quit ≡ true
          → Turns times w [] (over (record w { looping = false }))
      polls : {w : World P} → w.quit ≡ false → Turns [] w [] (waits w)
      turn :
          {now : ℕ} {times : List ℕ} {w w' w'' : World P} {trace : List (List (ℕ × List Call))}
          {r : Stage P}
          → w.quit ≡ false
          → round (within P) act now (kernel now w) w ≡ ok (L.due now (kernel now w) w.poller, w')
          → Ran w'.pending_functors
              (record w' { calling_pending_functors = true; pending_functors = [] })
              w''
          → Turns times (record w'' { calling_pending_functors = false }) trace r
          → Turns (now ∷ times) w (L.due now (kernel now w) w.poller ∷ trace) r

    run_all-Ran : (fs : List ℕ) (w : World P) → Ran fs w (run_all P act run kernel fs w)
    unfolding run_all
    run_all-Ran [] w = none_left
    run_all-Ran (f ∷ fs) w = runs (run_all-Ran fs (run f w))

    rounds_lem :
        (times : List ℕ) (w : World P)
        → L.IsValid w.poller
        → (trace : List (List (ℕ × List Call))) × (r : Stage P) × (loop_rounds P act run kernel
              times w
            ≡ ok (trace, r))
          × L.IsValid (world_of (ended P r)).poller
          × Turns times w trace (ended P r)
    unfolding loop_rounds do_pending_functors ended
    rounds_lem [] w v = elim (Bool-cases w.quit) [
      | inl done ↦ ([], over w, rw done refl, v, quits done)
      | inr goes ↦ ([], waits w, rw goes refl, v, polls goes)
    ]
    rounds_lem (now ∷ times) w v = elim (Bool-cases w.quit) [
      | inl done ↦ ([], over w, rw done refl, v, quits done)
      | inr goes ↦
          let (w1, ran, valid) =
            round_lem (within P) within-IsSound act gentle lawful now (kernel now w) w v
              (documented now w v) in
          let w2 = do_pending_functors P act run kernel w1 in
          let valid2 : L.IsValid w2.poller = run_all-IsValid w1.pending_functors _ valid in
          let (trace, r, more, valid', turns) = rounds_lem times w2 valid2 in
          (
            L.due now (kernel now w) w.poller ∷ trace,
            r,
            rw (ran, more)
                (ap
                  (λ b.
                    if not b
                    then ok (L.due now (kernel now w) w.poller ∷ trace, r)
                    else ok ([], over w))
                  goes),
            valid',
            turn goes ran (run_all-Ran w1.pending_functors _) turns,
          )
    ]

    -- For a loop that does not run yet and a valid poller, callbacks and functors that keep the poller
    -- valid, callbacks that leave the events received and the callbacks of each channel as they are, and
    -- a system call that answers as it documents: no assertion of the loop fails; in each round, until a
    -- round would begin after `quit`, each channel runs once the callbacks that the answer calls for, and
    -- then the functors that wait then are run, each once in their order; the loop is over where a round
    -- would begin after `quit`, and where the polls given are used up before that, it waits in its poll;
    -- the poller is valid in both cases.
    pub loop_lem :
        (times : List ℕ) (w : World P)
        → L.IsValid w.poller
        → w.looping ≡ false
        → (trace : List (List (ℕ × List Call))) × (r : Stage P) × (loop P act run kernel times w
            ≡ ok (trace, r))
          × L.IsValid (world_of r).poller
          × Turns times (record w { looping = true; quit = false }) trace r
    unfolding loop
    loop_lem times w v idle =
        let (trace, r, ran, valid, turns) =
          rounds_lem times (record w { looping = true; quit = false }) v in
        (trace, ended P r, rw idle (rw ran refl), valid, turns)
