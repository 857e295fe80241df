-- ===== src/Tcp/Server/Tests.antt =====
-- A server that has just been made, on which the theorems are applied.
use reactor_network_lib.Buffer.{Buffer}
use reactor_network_lib.Channel.{k_none_event, closes}
use reactor_network_lib.Tcp.Connection.{Connection, disconnected}
use reactor_network_lib.Tcp.Server.Inv.{IsValid, opens, hears}
use reactor_network_lib.Tcp.Server.Runs.{Event, run, run_lem, arrives, closes, removes, destroys}
use reactor_network_lib.Tcp.Server.Drain.{drain, drain_lem}
use reactor_network_lib.Common.{
  replicate, negsuc, inr, List, false, arith, ◌≡◌, ◌∷◌, [], ok, refl, true, ℕ,
}
use reactor_network_lib.Tcp.Server.{Server, count_key, conn_name}

abbrev pub nothing : Buffer
nothing = record { buffer = replicate 8 0; reader_index = 8; writer_index = 8 }

-- An object that does not exist yet.
abbrev pub unborn : Connection
unborn = record {
  state = disconnected;
  channel = record {
    fd = 0;
    events = k_none_event;
    revents = k_none_event;
    index = negsuc 0;
    read_callback = false;
    write_callback = false;
    error_callback = false;
    close_callback = false;
    event_handling = false;
  };
  write_complete_callback = false;
  input_buffer = nothing;
  output_buffer = nothing;
  effects = [];
}

-- Named "s", with loops 11 and 12 beside the base loop 0.
abbrev pub two_loops : Server
two_loops = record {
  name = 115 ∷ [];
  pool = record {
    base_loop = 0;
    started = true;
    num_threads = 2;
    next = 0;
    threads = 1 ∷ 2 ∷ [];
    loops = 11 ∷ 12 ∷ [];
  };
  started = true;
  listenning = true;
  write_complete_callback = false;
  next_conn_id = 1;
  connections = [];
  objects = λ p. unborn;
  loops = λ p. 0;
  removals = [];
  destructions = [];
  wrong_thread = false;
}

pub two_loops-IsValid : IsValid two_loops
two_loops-IsValid = record {
  keyed = tt;
  alive = λ p. refl;
  listed = λ p. refl;
  settled = λ p. refl;
  fresh = λ p h. refl;
  in_turn = inr (omega arith);
}

-- Two peers arrive; the first closes, then the second.
abbrev events : List Event
events =
    arrives 5
    ∷ arrives 6
    ∷ closes 1
    ∷ removes
    ∷ closes 1
    ∷ closes 2
    ∷ destroys
    ∷ removes
    ∷ destroys
    ∷ []

-- The server after two arrivals and a close, with a removal that waits.
abbrev busy :
    (s' : Server) × (run (arrives 5 ∷ arrives 6 ∷ closes 1 ∷ []) two_loops ≡ ok s') × IsValid s'
busy = run_lem (arrives 5 ∷ arrives 6 ∷ closes 1 ∷ []) two_loops two_loops-IsValid (omega arith)

drain_lem_example :
    (s' : Server) × (run (drain busy.0) busy.0 ≡ ok s')
    × IsValid s'
    × (s'.removals ≡ [])
    × (s'.destructions ≡ [])
    × ((p : ℕ) → opens (s'.objects p) ≡ hears (busy.0.objects p))
    × ((p : ℕ) → count_key (conn_name s'.name p) s'.connections ≡ hears (busy.0.objects p))
drain_lem_example = drain_lem busy.0 busy.2
