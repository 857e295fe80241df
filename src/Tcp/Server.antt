-- ===== src/Tcp/Server.antt =====
-- tcp/TcpServer.hpp and tcp/TcpServer.cpp: the connections of a server, by name.
-- A connection is an object of the store `objects`; the pointer to it is the number that its name has.
-- `removals` and `destructions` are the functors that wait in the loops: the second halves of
-- `remove_connection`, and the calls of `connect_destoryed`.
pub mod Names
pub mod Inv
pub mod Runs
pub mod Drain
pub mod Serving
pub mod Tests
use reactor_network_lib.Tcp.Connection
use reactor_network_lib.Tcp.Connection.{Connection, connect_established, connect_destoryed}
use reactor_network_lib.ThreadPool
use reactor_network_lib.ThreadPool.{Pool, get_next_loop}
use reactor_network_lib.Buffer.{same_bytes}
use reactor_network_lib.Common.{
  List, ℕ, Outcome, Bool, ◌++◌, ◌∷◌, if◌then◌else◌, ◌>>=◌, ◌>>◌, [], ◌+◌, ◌==◌, not, ltb, assert,
  ok, ◌^◌, fault, overflow, ◌||◌, true, false,
}
use reactor_network_lib.Decimal.{decimal}

pub record Server : Type 0 where
  pub name : List ℕ
  pub pool : Pool
  pub started : Bool
  pub listenning : Bool
  pub write_complete_callback : Bool
  pub next_conn_id : ℕ
  pub connections : List (List ℕ × ℕ)
  pub objects : ℕ → Connection
  pub loops : ℕ → ℕ
  pub removals : List ℕ
  pub destructions : List ℕ
  -- Whether a method has run in another thread than that of its connection's loop, which is fatal.
  pub wrong_thread : Bool

-- `name_ + "#%d"`
abbrev pub conn_name : List ℕ → ℕ → List ℕ
conn_name name id = name ++ 35 ∷ decimal id

-- `connections_[key] = p` and `connections_.erase(key)`, with the number of entries that have the key.
pub insert_key : List ℕ → ℕ → List (List ℕ × ℕ) → List (List ℕ × ℕ)
insert_key key p [] = (key, p) ∷ []
insert_key key p ((k, q) ∷ es) =
    let rest = insert_key key p es in if same_bytes key k then (key, p) ∷ es else (k, q) ∷ rest

pub erase_key : List ℕ → List (List ℕ × ℕ) → List (List ℕ × ℕ)
erase_key key [] = []
erase_key key ((k, q) ∷ es) =
    let rest = erase_key key es in if same_bytes key k then rest else (k, q) ∷ rest

pub count_key : List ℕ → List (List ℕ × ℕ) → ℕ
count_key key [] = 0
count_key key ((k, q) ∷ es) = (if same_bytes key k then 1 else 0) + count_key key es

abbrev pub object_at : (ℕ → Connection) → ℕ → Connection → ℕ → Connection
object_at objects p c q = if p == q then c else objects q

abbrev pub loop_at : (ℕ → ℕ) → ℕ → ℕ → ℕ → ℕ
loop_at loops p l q = if p == q then l else loops q

-- The constructor, on the base loop; the name is the address to listen at, as text.
pub create : List ℕ → ℕ → (ℕ → Connection) → Server
create name loop objects = record {
  name = name;
  pool = ThreadPool.create loop;
  started = false;
  listenning = false;
  write_complete_callback = false;
  next_conn_id = 1;
  connections = [];
  objects = objects;
  loops = λ p. loop;
  removals = [];
  destructions = [];
  wrong_thread = false;
}

pub set_thread_num : ℕ → Server → Server
set_thread_num num s = record s { pool = ThreadPool.set_thread_num num s.pool }

pub set_write_callback : Server → Server
set_write_callback s = record s { write_complete_callback = true }

-- In the thread of the base loop, where `run_in_loop` listens at once.
pub start : (ℕ → ℕ) → Server → Outcome Server
start start_loop s = do
  s' ←
      if not s.started
      then (do
        pool ← ThreadPool.start start_loop s.pool
        ok (record s { started = true; pool = pool }))
      else ok s
  ok (if not s'.listenning then record s' { listenning = true } else s')

pub new_connection : ℕ → Server → Outcome Server
new_connection sock_fd s = do
  let id = s.next_conn_id
  if ltb (id + 1) (2 ^ 31) then ok tt else fault overflow
  (io_loop, pool) ← get_next_loop s.pool
  conn ← Connection.create sock_fd s.write_complete_callback
  conn' ← connect_established conn
  ok (record s {
    next_conn_id = id + 1;
    pool = pool;
    connections = insert_key (conn_name s.name id) id s.connections;
    objects = object_at s.objects id conn';
    loops = loop_at s.loops id io_loop;
    wrong_thread = s.wrong_thread || not (io_loop == s.pool.base_loop);
  })

pub remove_connection_in_loop : ℕ → Server → Outcome Server
remove_connection_in_loop p s = do
  let n = count_key (conn_name s.name p) s.connections
  let connections = erase_key (conn_name s.name p) s.connections
  assert (n == 1)
  ok (record s { connections = connections; destructions = s.destructions ++ p ∷ [] })

-- `run_in_loop`: the thread of the base loop goes on at once, another one queues.
pub remove_connection : ℕ → Server → Outcome Server
unfolding remove_connection_in_loop
remove_connection p s =
    if s.loops p == s.pool.base_loop
    then remove_connection_in_loop p s
    else ok (record s { removals = s.removals ++ p ∷ [] })

-- The peer closes: the channel of `p` runs its close callback, which ends in `remove_connection`.
pub close_connection : ℕ → Server → Outcome Server
unfolding remove_connection
close_connection p s = do
  conn ← Connection.handle_close (s.objects p)
  remove_connection p (record s { objects = object_at s.objects p conn })

-- A loop runs the first of the functors that wait.
pub run_removal : Server → Outcome Server
unfolding remove_connection_in_loop
run_removal s = elim s.removals [
  | [] ↦ ok s
  | p ∷ ps ↦ remove_connection_in_loop p (record s { removals = ps })
]

pub run_destruction : Server → Outcome Server
run_destruction s = elim s.destructions [
  | [] ↦ ok s
  | p ∷ ps ↦ do
    conn ← connect_destoryed (s.objects p)
    ok (record s { destructions = ps; objects = object_at s.objects p conn })
]
