-- ===== src/Tcp/Client/Tests.antt =====
-- A client that has just been made and retries, on which the theorem is applied.
use reactor_network_lib.Channel
use reactor_network_lib.Buffer
use reactor_network_lib.Buffer.{Buffer}
use reactor_network_lib.Channel.{k_none_event}
use reactor_network_lib.Tcp.Connection.{Connection, disconnected, connected}
use reactor_network_lib.Tcp.Connection
use reactor_network_lib.Tcp.Connector
use reactor_network_lib.Tcp.Connector.{einprogress, eagain}
use reactor_network_lib.Tcp.Client.{
  Client, enable_retry, connect, create, start_in_loop, handle_write, new_connection,
  remove_connection, close_connection, run_destruction, disconnect, reset_channel,
}
use reactor_network_lib.Tcp.Client.Inv.{IsValid}
use reactor_network_lib.Tcp.Client.Events.{
  Event, run, connects, disconnects, writes, resets, closes, destroys, fires, orderly, step,
}
use reactor_network_lib.Tcp.Client.Runs.{client_run_lem}
use reactor_network_lib.Common.{refl, replicate, negsuc, List, ◌≡◌, false, ok, ◌∷◌, [], arith, true}

abbrev nothing : Buffer
nothing = record { buffer = replicate 8 0; reader_index = 8; writer_index = 8 }

-- An object that does not exist yet.
abbrev unborn : Connection
unborn = record {
  state = disconnected;
  channel = record {
    fd = 0;
    events = k_none_event;
    revents = k_none_event;
    index = negsuc 0;
    read_callback = false;
    write_callback = false;
    error_callback = false;
    close_callback = false;
    event_handling = false;
  };
  write_complete_callback = false;
  input_buffer = nothing;
  output_buffer = nothing;
  effects = [];
}

abbrev retrying : Client
retrying = enable_retry (create (λ p. unborn))

retrying-IsValid : IsValid retrying
unfolding create enable_retry Connector.create
retrying-IsValid = record {
  alive = λ p. refl;
  listed = λ p. refl;
  settled = λ p. refl;
  fresh = λ p h. refl;
  linked = refl;
  tied = refl;
}

-- The first attempt fails on the socket, the second is closed by the peer, and a third is under way.
abbrev events : List Event
events =
    connects 5 einprogress
    ∷ writes 111 false false
    ∷ resets
    ∷ fires 6 einprogress
    ∷ writes 0 false false
    ∷ resets
    ∷ closes 1 7 einprogress
    ∷ destroys
    ∷ disconnects
    ∷ []

events-orderly : orderly events retrying ≡ true
unfolding orderly step connect start_in_loop handle_write new_connection remove_connection
    close_connection run_destruction disconnect reset_channel create enable_retry Connector.create
    Connector.start Connector.start_in_loop Connector.connect Connector.after_connect
    Connector.connecting Connector.handle_write Connector.remove_and_reset_channel Connector.retry
    Connector.reset_channel Connector.restart Connection.create Buffer.create
    Connection.connect_established Channel.enable_reading Connection.handle_close
    Connection.connect_destoryed
events-orderly = refl

client_run_lem_example : (c' : Client) × (run events retrying ≡ ok c') × IsValid c'
unfolding create enable_retry
client_run_lem_example =
    client_run_lem events retrying retrying-IsValid (omega arith) events-orderly
