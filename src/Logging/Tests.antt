-- ===== src/Logging/Tests.antt =====
-- Two loggers, one of them fatal, and a writer, on which the theorems are applied.
use reactor_network_lib.Logging.{
  LogInfo, LogWritter, text, create, destroy, ℕ, [], List, goes_on, aborts,
}
use reactor_network_lib.Logging.Rounds.{kept, record_of}
use reactor_network_lib.Logging.Lines.{Event, logs, turns, run, given, lines_lem}
use reactor_network_lib.Common.{ℕ, [], List, true, ◌∷◌, ◌≡◌, ◌⊎◌, leb, ◌++◌}

abbrev stamp : ℕ → List ℕ
stamp t = t ∷ []

abbrev quiet : LogWritter
quiet = record {
  loggers = [];
  running = true;
  objects = λ p. record { container = []; state = 0; file = [] };
}

abbrev fatal_logger : LogWritter
fatal_logger = create 1 6 quiet

abbrev line : ℕ → LogInfo
line n = record { context = n ∷ []; time_stamp = n }

-- The fatal logger ends the program before the second one is written.
abbrev events : List Event
events = logs 2 (line 7) ∷ turns ∷ logs 2 (line 8) ∷ logs 1 (line 9) ∷ turns ∷ logs 2 (line 5) ∷ []

abbrev begun : LogWritter
begun = create 2 3 fatal_logger

lines_lem_example :
    (kept stamp 2 (run stamp events begun) ≡ text stamp (given stamp 2 events begun))
    × (((w' : LogWritter) × (run stamp events begun ≡ goes_on w')
          × (((destroy stamp 2 w').objects 2).file ≡ text stamp (given stamp 2 events begun)))
        ⊎ ((w' : LogWritter) × (run stamp events begun ≡ aborts w')
            × ((p : ℕ) × (leb 6 (w'.objects p).state ≡ true)
                × ((w'.objects p).file
                    ≡ record_of stamp p begun ++ text stamp (given stamp p events begun)))))
lines_lem_example = lines_lem stamp events 2 3 fatal_logger
