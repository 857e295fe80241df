-- ===== src/Tcp/Server/Serving/Tests.antt =====
-- A server with no loop but its base loop, with two peers that talk.
use reactor_network_lib.Tcp.Server.{Server, List, conn_name}
use reactor_network_lib.Tcp.Server.Tests.{unborn, two_loops, two_loops-IsValid}
use reactor_network_lib.Tcp.Server.Runs.{arrives, closes, removes, destroys}
use reactor_network_lib.Tcp.Server.Serving.{Event, does, turns, run}
use reactor_network_lib.Tcp.Server.Serving.Steps.{IsServing, AllPieces, small_AllPieces}
use reactor_network_lib.Tcp.Server.Serving.Safety.{serve_lem, serve_stream, owns}
use reactor_network_lib.Tcp.Server.Serving.Objects.{waits}
use reactor_network_lib.Tcp.Server.Serving.Home.{IsAtHome}
use reactor_network_lib.Tcp.Server.Inv.{IsValid}
use reactor_network_lib.Tcp.Connection.Stream.{stream}
use reactor_network_lib.Tcp.Connection.Answering.Tests.{opened, opened-IsReady}
use reactor_network_lib.Tcp.Connection.Answering.{reads, fails, writable}
use reactor_network_lib.Common.{
  List, arith, ◌≡◌, ℕ, ok, ◌∷◌, [], none, some, inr, Bool-cases, false, ◌⊎◌, if◌then◌else◌, ◌==◌,
  inl, true, ◌++◌, refl,
}

abbrev marked : List ℕ → List ℕ
marked xs = 62 ∷ xs

abbrev events : List Event
events =
    does (arrives 5)
    ∷ turns 1 (reads (7 ∷ 8 ∷ []) none)
    ∷ does (arrives 6)
    ∷ turns 2 (reads (9 ∷ []) (some 1))
    ∷ turns 1 (writable (some 2))
    ∷ does (closes 1)
    ∷ turns 1 (writable (some 9))
    ∷ does removes
    ∷ turns 2 (fails 104)
    ∷ does destroys
    ∷ []

-- The server of two loops, had it only its base loop.
abbrev at_home : Server
at_home = record two_loops { pool = record two_loops.pool { loops = [] } }

at_home-IsServing : IsServing marked events at_home
at_home-IsServing = record {
  valid = record {
    keyed = tt;
    alive = two_loops-IsValid.alive;
    listed = two_loops-IsValid.listed;
    settled = two_loops-IsValid.settled;
    fresh = two_loops-IsValid.fresh;
    in_turn = inl refl;
  };
  ready = λ p h. absurd (ground (arith, h));
  room_in = λ p h. absurd (ground (arith, h));
  room_out = λ p h. absurd (ground (arith, h));
  names = omega arith;
  fresh_in = omega arith;
  fresh_out = omega arith;
}

serve_lem_example :
    (s' : Server) × (run marked events at_home ≡ ok s') × IsServing marked [] s' × IsAtHome s'
serve_lem_example =
    serve_lem marked events at_home at_home-IsServing (refl, refl)
      (small_AllPieces marked events at_home
        ((omega arith, omega arith), ((omega arith, omega arith), (tt, (tt, (tt, tt))))))

-- A server with one connection, named "s#1", whose output still waits.
abbrev talking : Server
talking = record at_home {
  next_conn_id = 2;
  connections = (conn_name (115 ∷ []) 1, 1) ∷ [];
  objects = λ p. if p == 1 then opened else unborn;
}

talking-IsValid : IsValid talking
talking-IsValid = record {
  keyed = (refl, tt);
  alive = λ p. ground arith;
  listed = λ p. ground arith;
  settled = λ p. ground arith;
  fresh = λ p h. ground arith;
  in_turn = inl refl;
}

-- The connection at hand talks on while another comes and goes.
abbrev talk : List Event
talk =
    turns 1 (reads (7 ∷ 8 ∷ []) none)
    ∷ does (arrives 6)
    ∷ turns 2 (reads (9 ∷ []) (some 1))
    ∷ turns 1 (writable (some 2))
    ∷ does (closes 2)
    ∷ does removes
    ∷ turns 1 (fails 104)
    ∷ does destroys
    ∷ turns 1 (reads (5 ∷ []) none)
    ∷ []

talking-IsServing : IsServing marked talk talking
talking-IsServing = record {
  valid = talking-IsValid;
  ready = λ p h. elim (Bool-cases (p == 1)) [
    | inl here ↦ rw here opened-IsReady
    | inr apart ↦ absurd (ground (arith, apart, h))
  ];
  room_in = λ p h. ground (arith, h);
  room_out = λ p h. ground (arith, h);
  names = omega arith;
  fresh_in = omega arith;
  fresh_out = omega arith;
}

abbrev pieces : AllPieces marked talk talking
pieces = small_AllPieces marked talk talking (
  (omega arith, omega arith),
  ((omega arith, omega arith), (tt, (tt, ((omega arith, omega arith), tt)))),
)

abbrev after :
    (s' : Server) × (run marked talk talking ≡ ok s') × IsServing marked [] s' × IsAtHome s'
after = serve_lem marked talk talking talking-IsServing (refl, refl) pieces

serve_stream_example :
    (waits (after.0.objects 1) ≡ false)
    ⊎ (waits (talking.objects 1) ≡ true)
      × (stream (after.0.objects 1) ≡ stream (talking.objects 1) ++ owns marked 1 talk)
serve_stream_example =
    serve_stream marked talk talking after.0 1 talking-IsServing pieces after.1 (omega arith)
