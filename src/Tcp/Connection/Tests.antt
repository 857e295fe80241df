-- ===== src/Tcp/Connection/Tests.antt =====
-- A connection whose output buffer holds three bytes, on which the theorems are applied.
use reactor_network_lib.Buffer.Inv.{IsValid, readable_bytes_lem}
use reactor_network_lib.Buffer.{Buffer, got}
use reactor_network_lib.Tcp.Connection.{
  send, handle_close, handle_write, ◌∷◌, Connection, List, shutdown_loop, connected, took,
  disconnected, shutdown_in_loop, disconnecting, connect_destoryed, updates_channel, tells_close,
}
use reactor_network_lib.Channel.{k_none_event, is_none_event, is_writing}
use reactor_network_lib.Common.{
  ◌∷◌, arith, List, [], true, pos, ◌≡◌, false, some, ok, none, fault, ◌++◌, assertion, refl,
}
use reactor_network_lib.Tcp.Connection.Traffic.{
  messages, Turn, writable, sends, run_turns, run_turns_lem,
}
use reactor_network_lib.Tcp.Connection.Lifecycle.{after_close, shutdown_loop_lem, close_lem}
use reactor_network_lib.Tcp.Connection.Shutdown.{shutdown_effects, shutdown_waits}
use reactor_network_lib.Tcp.Connection.Stream.{stream}
use reactor_network_lib.Tcp.Connection.Dispatch.{on_event, end_of_stream_lem}
use reactor_network_lib.Buffer
use reactor_network_lib.Tcp.Acceptor.{got}

abbrev pub three_bytes : Buffer
three_bytes = record {
  buffer = 0 ∷ 0 ∷ 0 ∷ 0 ∷ 0 ∷ 0 ∷ 0 ∷ 0 ∷ 1 ∷ 2 ∷ 3 ∷ 0 ∷ [];
  reader_index = 8;
  writer_index = 11;
}

pub three_bytes-IsValid : IsValid three_bytes
three_bytes-IsValid = record {
  header = omega arith;
  ordered = omega arith;
  within = omega arith;
  small = omega arith;
}

abbrev pub writing : Connection
writing = record {
  state = connected;
  channel = record {
    fd = 5;
    events = record k_none_event { pollin = true; pollout = true };
    revents = k_none_event;
    index = pos 1;
    read_callback = true;
    write_callback = true;
    error_callback = true;
    close_callback = true;
    event_handling = false;
  };
  write_complete_callback = true;
  input_buffer = three_bytes;
  output_buffer = three_bytes;
  effects = [];
}

abbrev turns : List Turn
turns =
    writable (some 2)
    ∷ sends (4 ∷ 5 ∷ []) none
    ∷ writable none
    ∷ writable (some 9)
    ∷ sends (6 ∷ 7 ∷ []) (some 1)
    ∷ []

run_turns_lem_example :
    (c' : Connection) × (run_turns turns writing ≡ ok c')
    × IsValid c'.output_buffer
    × (stream c' ≡ stream writing ++ messages turns)
run_turns_lem_example = run_turns_lem turns writing three_bytes-IsValid (omega arith)

close_lem_example :
    (c' : Connection) × (after_close writing ≡ ok c')
    × (c'.state ≡ disconnected)
    × (is_none_event c'.channel ≡ true)
    × (handle_close c' ≡ fault assertion)
    × (connect_destoryed c' ≡ fault assertion)
    × (send true (9 ∷ []) (took 1) c' ≡ ok c')
    × (shutdown_loop 1 true c' ≡ some c')
close_lem_example = close_lem writing (9 ∷ []) (took 1) true 0 refl

shutdown_loop_lem_example :
    shutdown_loop 2 true writing
    ≡ some (shutdown_in_loop (record writing { state = disconnecting }))
shutdown_loop_lem_example = shutdown_loop_lem 0 true writing

shutdown_waits_example :
    (c' : Connection) × (c'' : Connection) × (shutdown_loop 2 true writing ≡ some c')
    × (c'.effects ≡ [])
    × (handle_write (took 3) c' ≡ ok c'')
    × (c''.effects ≡ shutdown_effects 3 writing)
unfolding is_writing
shutdown_waits_example =
    shutdown_waits writing 0 3 three_bytes-IsValid refl refl (omega arith)
      (omega (arith, readable_bytes_lem three_bytes-IsValid))

-- The peer has closed, and the socket is writable.
abbrev hung_up : Connection
hung_up = record writing {
  channel = record writing.channel {
    revents = record k_none_event { pollin = true; pollout = true };
  };
}

end_of_stream_lem_example :
    (c : Connection) × (on_event (got []) (took 3) 100 hung_up ≡ ok c)
    × (c.effects ≡ updates_channel k_none_event ∷ tells_close ∷ [])
    × (c.state ≡ connected)
    × (c.channel.events ≡ k_none_event)
unfolding Buffer.read_fd Buffer.has_written Buffer.copy_to Buffer.writable_bytes
end_of_stream_lem_example =
    end_of_stream_lem (got []) (took 3) 100 hung_up three_bytes refl refl refl refl refl refl refl
