-- ===== src/EventLoop/Loop/Tests.antt =====
-- A loop over two channels whose callbacks stop writing, with a functor that tells it to quit.
use reactor_network_lib.Poller.Tests.{two, two-IsValid}
use reactor_network_lib.Poller.Inv.{IsValid}
use reactor_network_lib.Channel.{Call, Events}
use reactor_network_lib.EventLoop.Round.Poll.{polling, sound}
use reactor_network_lib.EventLoop.Round.Runs.{Gentle, Lawful}
use reactor_network_lib.EventLoop.Round.Tests.{
  stops_writing, stops_writing-Gentle, stops_writing-Lawful, readable, readable_lem,
}
use reactor_network_lib.EventLoop.Loop.{World, Stage, within, loop, ℕ, false, List}
use reactor_network_lib.EventLoop.Loop.Runs.{within-IsSound, world_of, Turns, loop_lem}
use reactor_network_lib.Common.{
  ℕ, false, List, Bool-cases, if◌then◌else◌, ◌∷◌, ◌==◌, [], true, inl, ◌≡◌, inr, ok, refl,
}

abbrev act : ℕ → List Call → World polling → World polling
act p calls w = record w { poller = stops_writing p calls w.poller }

abbrev run : ℕ → World polling → World polling
run f w = if f == 0 then record w { quit = true } else w

abbrev kernel : ℕ → World polling → List Events
kernel now w = readable w.poller.poll_fds

act-Gentle : Gentle (within polling) (within-IsSound polling sound) act
act-Gentle p calls w v q = stops_writing-Gentle p calls w.poller v q

act-Lawful : Lawful (within polling) (within-IsSound polling sound) act
act-Lawful p calls w v = stops_writing-Lawful p calls w.poller v

run_lem : (f : ℕ) (w : World polling) → IsValid w.poller → IsValid (run f w).poller
run_lem f w v = elim (Bool-cases (f == 0)) [ inl last ↦ rw last v | inr other ↦ rw other v ]

abbrev begun : World polling
begun = record {
  poller = two;
  looping = false;
  quit = false;
  calling_pending_functors = false;
  pending_functors = 1 ∷ 0 ∷ [];
}

loop_lem_example :
    (trace : List (List (ℕ × List Call))) × (r : Stage polling) × (loop polling act run kernel
        (5 ∷ 8 ∷ [])
        begun
      ≡ ok (trace, r))
    × IsValid (world_of polling sound r).poller
    × Turns polling sound act run kernel act-Gentle act-Lawful run_lem
        (λ now w v. readable_lem w.poller.poll_fds)
        (5 ∷ 8 ∷ [])
        (record begun { looping = true; quit = false })
        trace
        r
loop_lem_example =
    loop_lem polling sound act run kernel act-Gentle act-Lawful run_lem
      (λ now w v. readable_lem w.poller.poll_fds) (5 ∷ 8 ∷ []) begun two-IsValid refl
