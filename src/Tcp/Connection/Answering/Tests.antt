-- ===== src/Tcp/Connection/Answering/Tests.antt =====
-- A connection that sends back what comes in, behind a mark, while its output still waits.
use reactor_network_lib.Buffer.{Buffer}
use reactor_network_lib.Buffer.Inv.{IsValid}
use reactor_network_lib.Tcp.Connection.{Connection}
use reactor_network_lib.Tcp.Connection.Stream.{stream}
use reactor_network_lib.Tcp.Connection.Tests.{writing, three_bytes-IsValid}
use reactor_network_lib.Tcp.Connection.Answering.{
  Turn, reads, fails, writable, run_turns, answers, small_Bounded,
}
use reactor_network_lib.Tcp.Connection.Answering.Runs.{IsReady, answers_lem}
use reactor_network_lib.Common.{◌∷◌, replicate, arith, List, refl, ◌≡◌, ℕ, [], ok, none, ◌++◌, some}

abbrev pub empty : Buffer
empty = record { buffer = replicate 16 0; reader_index = 8; writer_index = 8 }

empty-IsValid : IsValid empty
empty-IsValid = record {
  header = omega arith;
  ordered = omega arith;
  within = omega arith;
  small = omega arith;
}

abbrev pub opened : Connection
opened = record writing { input_buffer = empty }

pub opened-IsReady : IsReady opened
opened-IsReady = record {
  state = refl;
  input = empty-IsValid;
  output = three_bytes-IsValid;
  taken = refl;
}

abbrev marked : List ℕ → List ℕ
marked xs = 62 ∷ xs

abbrev turns : List Turn
turns =
    reads (5 ∷ 6 ∷ []) none
    ∷ writable (some 4)
    ∷ fails 11
    ∷ writable (some 9)
    ∷ reads (7 ∷ []) (some 1)
    ∷ []

answers_lem_example :
    (c' : Connection) × (run_turns marked turns opened ≡ ok c')
    × IsReady c'
    × (stream c' ≡ stream opened ++ answers marked turns)
answers_lem_example =
    answers_lem marked turns opened opened-IsReady
      (small_Bounded marked turns opened
        ((omega arith, omega arith), (tt, (tt, (tt, ((omega arith, omega arith), tt))))))
      (omega arith) (omega arith)
