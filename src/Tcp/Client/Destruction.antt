-- ===== src/Tcp/Client/Destruction.antt =====
-- The destructor of tcp/TcpClient.cpp with `detail::remove_connection`, and what it leaves.
-- `held` says whether anything but the client has a pointer to its connection; the last pointer that
-- goes deletes the connection, its channel and its socket, which closes the descriptor.
use reactor_network_lib.Tcp.Client.{Client, has, ℕ, Bool}
use reactor_network_lib.Tcp.Connection.{Connection}
use reactor_network_lib.Tcp.Connector
use reactor_network_lib.Tcp.Connector.{has_none}
use reactor_network_lib.Common.{
  ℕ, Bool, Option, Outcome, ◌++◌, List, some, ◌>>=◌, ◌∷◌, ok, [], if◌then◌else◌, none, fault, ◌≡◌,
  false, true, assertion, ◌==◌, arith, ◌&&◌, not, refl,
}

-- The connections when the client is gone: which one its destructor has deleted, which descriptors have
-- been closed, and which connection has a close callback that captures the client.
pub record Remains : Type 0 where
  pub objects : ℕ → Connection
  pub deleted : Option ℕ
  pub closed : List ℕ
  pub orphan : Option ℕ
  pub destructions : List ℕ

unfoldable pub destroy : Bool → Client → Outcome Remains
destroy held c = elim c.connection [
  | some p ↦ do
    connector ← Connector.destroy c.connector
    ok (record {
      objects = c.objects;
      deleted = if held then none else some p;
      closed = if held then [] else (c.objects p).channel.fd ∷ [];
      orphan = if held then some p else none;
      destructions = c.destructions;
    })
  | none ↦ do
    connector ← Connector.destroy (Connector.stop c.connector)
    ok (record {
      objects = c.objects;
      deleted = none;
      closed = [];
      orphan = none;
      destructions = c.destructions;
    })
]

-- `detail::remove_connection`
pub remove_connection : ℕ → Remains → Remains
remove_connection p r = record r { destructions = r.destructions ++ p ∷ [] }

-- While the connector has a channel, the destructor fails the assertion of the connector's destructor.
destroy_busy :
    (held : Bool) (c : Client)
    → has_none c.connector.channel ≡ false
    → destroy held c ≡ fault assertion
unfolding destroy Connector.destroy Connector.stop
destroy_busy held c busy = ground arith

-- For a client whose connector has no channel and that has a connection: where something else holds the
-- connection, the destructor deletes nothing and leaves it with a callback that captures the client;
-- where nothing does, it deletes the connection, in whatever state this is, and closes its descriptor.
pub destroy_lem :
    (held : Bool) (c : Client) (p : ℕ)
    → c.connection ≡ some p
    → has_none c.connector.channel ≡ true
    → (r : Remains) × (destroy held c ≡ ok r)
      × ((q : ℕ) → has q r.orphan ≡ ((q == p) && held))
      × ((q : ℕ) → has q r.deleted ≡ ((q == p) && not held))
      × (r.closed ≡ (if held then [] else (c.objects p).channel.fd ∷ []))
unfolding destroy Connector.destroy
destroy_lem held c p own free = (
  record {
    objects = c.objects;
    deleted = if held then none else some p;
    closed = if held then [] else (c.objects p).channel.fd ∷ [];
    orphan = if held then some p else none;
    destructions = c.destructions;
  },
  ground (arith, own, free),
  λ q. ground arith,
  λ q. ground arith,
  refl,
)
