-- ===== src/Tcp/Client.antt =====
-- tcp/TcpClient.hpp and tcp/TcpClient.cpp: a client has a connector and at most one connection.
-- A connection is an object of the store `objects`; the pointer to it is the number that its name has.
-- What system calls return is an argument, as in Tcp.Connector. All runs in the thread of the loop.
pub mod Inv
pub mod Events
pub mod Runs
pub mod Destruction
pub mod Tests
use reactor_network_lib.Tcp.Connector
use reactor_network_lib.Tcp.Connector.{Connector}
use reactor_network_lib.Tcp.Connection
use reactor_network_lib.Tcp.Connection.{Connection, connect_established, connect_destoryed}
use reactor_network_lib.Decimal.{decimal}
use reactor_network_lib.Common.{
  Bool, ℕ, true, Option, false, List, Outcome, if◌then◌else◌, some, none, take, ◌>>=◌, ◌>>◌, [],
  ◌==◌, ok, ◌∷◌, assert, ◌++◌, ltb, ◌+◌, ◌&&◌, ◌^◌, fault, overflow,
}

-- `connect_` is `wanted` here. `lost` is the descriptors that nothing refers to any more.
pub record Client : Type 0 where
  pub connector : Connector
  pub write_complete_callback : Bool
  pub retry : Bool
  pub wanted : Bool
  pub next_conn_id : ℕ
  pub connection : Option ℕ
  pub objects : ℕ → Connection
  pub destructions : List ℕ
  pub lost : List ℕ

abbrev pub object_at : (ℕ → Connection) → ℕ → Connection → ℕ → Connection
object_at objects p c q = if p == q then c else objects q

abbrev pub has : ℕ → Option ℕ → Bool
has p none = false
has p (some q) = p == q

-- The constructor; the connector's callback is `new_connection`.
unfoldable pub create : (ℕ → Connection) → Client
create objects = record {
  connector = Connector.create;
  write_complete_callback = false;
  retry = false;
  wanted = true;
  next_conn_id = 1;
  connection = none;
  objects = objects;
  destructions = [];
  lost = [];
}

unfoldable pub enable_retry : Client → Client
enable_retry c = record c { retry = true }

pub get_connection : Client → Option ℕ
get_connection c = c.connection

pub set_write_complete_callback : Client → Client
set_write_complete_callback c = record c { write_complete_callback = true }

pub connect : ℕ → Connector.Errno → Client → Outcome Client
connect fd e c = do
  connector ← Connector.start true fd e c.connector
  ok (record c { wanted = true; connector = connector })

-- On fuel for the loop of `shutdown`.
pub disconnect : ℕ → Client → Option Client
disconnect fuel c =
    let c' : Client = record c { wanted = false } in
    elim c'.connection [
      | none ↦ some c'
      | some p ↦ elim (Connection.shutdown_loop fuel true (c'.objects p)) [
        | none ↦ none
        | some conn ↦ some (record c' { objects = object_at c'.objects p conn })
      ]
    ]

pub stop : Client → Client
stop c = record c { wanted = false; connector = Connector.stop c.connector }

pub new_connection : ℕ → Bool → Client → Outcome Client
new_connection sock_fd poll_fails c =
    if poll_fails then ok (record c { lost = sock_fd ∷ c.lost }) else (do
      let id = c.next_conn_id
      if ltb (id + 1) (2 ^ 31) then ok tt else fault overflow
      conn ← Connection.create sock_fd c.write_complete_callback
      conn' ← connect_established conn
      ok (record c {
        next_conn_id = id + 1;
        connection = some id;
        objects = object_at c.objects id conn';
      }))

pub remove_connection : ℕ → ℕ → Connector.Errno → Client → Outcome Client
remove_connection p fd e c = do
  assert (has p c.connection)
  let c' : Client = record c { connection = none; destructions = c.destructions ++ p ∷ [] }
  if c'.retry && c'.wanted
      then (do
        connector ← Connector.restart fd e c'.connector
        ok (record c' { connector = connector }))
      else ok c'

-- The peer closes: the channel of `p` runs its close callback, which ends in `remove_connection`.
pub close_connection : ℕ → ℕ → Connector.Errno → Client → Outcome Client
unfolding remove_connection
close_connection p fd e c = do
  conn ← Connection.handle_close (c.objects p)
  remove_connection p fd e (record c { objects = object_at c.objects p conn })

pub run_destruction : Client → Outcome Client
run_destruction c = elim c.destructions [
  | [] ↦ ok c
  | p ∷ ps ↦ do
    conn ← connect_destoryed (c.objects p)
    ok (record c { destructions = ps; objects = object_at c.objects p conn })
]

-- The connector's channel is writable: what it hands over goes to `new_connection`.
pub handle_write : ℕ → Bool → Bool → Client → Outcome Client
unfolding new_connection
handle_write err self_connect poll_fails c = do
  connector ← Connector.handle_write err self_connect c.connector
  let c' : Client = record c { connector = connector }
  if Connector.is_connecting c.connector.state
      then (elim (Connector.handed connector.effects) [
        | none ↦ ok c'
        | some fd ↦ new_connection fd poll_fails c'
      ])
      else ok c'

pub handle_error : Client → Outcome Client
handle_error c = do
  connector ← Connector.handle_error c.connector
  ok (record c { connector = connector })

-- The connector's functor and its timer.
pub reset_channel : Client → Client
reset_channel c = record c { connector = Connector.reset_channel c.connector }

pub start_in_loop : ℕ → Connector.Errno → Client → Outcome Client
start_in_loop fd e c = do
  connector ← Connector.start_in_loop fd e c.connector
  ok (record c { connector = connector })
