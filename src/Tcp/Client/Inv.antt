-- ===== src/Tcp/Client/Inv.antt =====
-- Where each connection of a client stands: the client's own, or on its way to its end.
use reactor_network_lib.Tcp.Client.{
  Client, new_connection, remove_connection, close_connection, run_destruction, handle_write,
  object_at, ℕ, Option,
}
use reactor_network_lib.Tcp.Connection.{is_open, is_connecting}
use reactor_network_lib.Tcp.Connection.Lifecycle.{
  establish_lem, handle_close_lem, connect_destoryed_lem,
}
use reactor_network_lib.Tcp.Connector
use reactor_network_lib.Tcp.Connector.{handed, Errno, has_none}
use reactor_network_lib.Tcp.Connector.Handover.{is_tied, is_up, handle_write_lem, restart_lem}
use reactor_network_lib.Tcp.Server.Inv.{waiting, waiting-snoc, opens, hears}
use reactor_network_lib.Common.{
  ℕ, Option, ◌≡◌, some, Bool, ok, ◌+◌, false, none, List-cases, if◌then◌else◌, true, inl, ◌==◌, ◌<◌,
  inr, arith, ◌^◌, ◌≤◌, ◌∷◌, not, ◌||◌, refl, Option-cases, ◌++◌, [], Bool-cases, ◌&&◌,
}

abbrev pub holds : ℕ → Option ℕ → ℕ
holds p none = 0
holds p (some q) = if q == p then 1 else 0

abbrev pub has_some : Option ℕ → Bool
has_some none = false
has_some (some p) = true

-- A connection that is open is the client's own or waits for its end; only the client's own hears its
-- peer, and while the client has one its connector stays connected.
pub record IsValid (c : Client) : Type 0 where
  pub alive : (p : ℕ) → opens (c.objects p) ≡ holds p c.connection + waiting p c.destructions
  pub listed : (p : ℕ) → holds p c.connection ≡ hears (c.objects p)
  pub settled : (p : ℕ) → is_connecting (c.objects p).state ≡ false
  pub fresh : (p : ℕ) → c.next_conn_id ≤ p → opens (c.objects p) ≡ 0
  pub linked : (not (has_some c.connection) || is_up c.connector.state) ≡ true
  pub tied : is_tied c.connector ≡ true

-- A descriptor that the connector hands over becomes the client's connection, unless polling it fails.
pub new_connection-IsValid :
    (fd : ℕ) (poll_fails : Bool) (c : Client)
    → IsValid c
    → c.connection ≡ none
    → is_up c.connector.state ≡ true
    → c.next_conn_id + 1 < 2 ^ 31
    → (c' : Client) × (new_connection fd poll_fails c ≡ ok c')
      × IsValid c'
      × (c'.next_conn_id ≤ c.next_conn_id + 1)
unfolding new_connection
new_connection-IsValid fd true c v free up room = (
  record c { lost = fd ∷ c.lost },
  refl,
  record {
    alive = v.alive;
    listed = v.listed;
    settled = v.settled;
    fresh = v.fresh;
    linked = v.linked;
    tied = v.tied;
  },
  omega arith,
)
new_connection-IsValid fd false c v free up room =
    let (conn, conn', made, established, state, hearing) =
      establish_lem fd c.write_complete_callback in
    let id = c.next_conn_id in
    (
      record c {
        next_conn_id = id + 1;
        connection = some id;
        objects = object_at c.objects id conn';
      },
      ground (arith, made, established),
      record {
        alive = λ q. ground (arith, v.alive q, v.fresh id, free, state);
        listed = λ q. ground (arith, v.listed q, free, hearing);
        settled = λ q. ground (arith, v.settled q, state);
        fresh = λ q h. ground (arith, v.fresh q);
        linked = ground (arith, up);
        tied = v.tied;
      },
      omega arith,
    )

-- `remove_connection` of the client's connection, once its channel is off: it takes it away, and
-- connects again where the client retries.
remove_connection-IsValid :
    (p fd : ℕ) (e : Errno) (c : Client)
    → c.connection ≡ some p
    → IsValid (record c { connection = none; destructions = c.destructions ++ p ∷ [] })
    → has_none c.connector.channel ≡ true
    → (c' : Client) × (remove_connection p fd e c ≡ ok c')
      × IsValid c'
      × (c'.next_conn_id ≡ c.next_conn_id)
unfolding remove_connection
remove_connection-IsValid p fd e c own v free =
    let gone : Client = record c { connection = none; destructions = c.destructions ++ p ∷ [] } in
    elim (Bool-cases (c.retry && c.wanted)) [
      | inl again ↦
          let (connector, ran, tied) = restart_lem fd e c.connector free in
          (
            record gone { connector = connector },
            ground (arith, own, again, ran),
            record {
              alive = v.alive;
              listed = v.listed;
              settled = v.settled;
              fresh = v.fresh;
              linked = refl;
              tied = tied;
            },
            refl,
          )
      | inr stays ↦ (gone, ground (arith, own, stays), v, refl)
    ]

pub close_connection-IsValid :
    (p fd : ℕ) (e : Errno) (c : Client)
    → IsValid c
    → (c.objects p).channel.events.pollin ≡ true
    → has_none c.connector.channel ≡ true
    → (c' : Client) × (close_connection p fd e c ≡ ok c')
      × IsValid c'
      × (c'.next_conn_id ≡ c.next_conn_id)
unfolding close_connection
close_connection-IsValid p fd e c v hearing free =
    let own : c.connection ≡ some p = ground (arith, v.listed p) in
    let up : is_open (c.objects p).state ≡ true = ground (arith, v.listed p, v.alive p) in
    let (conn, closed, same, off) = handle_close_lem (c.objects p) up in
    let left : Client = record c { objects = object_at c.objects p conn } in
    let (c', ran, valid, next) =
      remove_connection-IsValid p fd e left own
        (record {
          alive = λ q. ground (arith, v.alive q, waiting-snoc p q c.destructions, same, own);
          listed = λ q. ground (arith, v.listed q, off, own);
          settled = λ q. ground (arith, v.settled q, same);
          fresh = λ q h. ground (arith, v.fresh q, same);
          linked = refl;
          tied = v.tied;
        })
        free in
    (c', rw closed ran, valid, next)

pub run_destruction-IsValid :
    (c : Client)
    → IsValid c
    → (c' : Client) × (run_destruction c ≡ ok c') × IsValid c' × (c'.next_conn_id ≡ c.next_conn_id)
unfolding run_destruction
run_destruction-IsValid c v = elim (List-cases c.destructions) [
  | inl quiet ↦ (c, rw quiet refl, v, refl)
  | inr (p, ps, first) ↦
      let waits : waiting p c.destructions ≡ 1 + waiting p ps = ground (arith, first) in
      let up : is_open (c.objects p).state ≡ true = ground (arith, v.alive p, waits) in
      let (conn, ended, down, off) = connect_destoryed_lem (c.objects p) up in
      (
        record c { destructions = ps; objects = object_at c.objects p conn },
        rw first (rw ended refl),
        record {
          alive = λ q. ground (arith, v.alive q, first, down, waits);
          listed = λ q. ground (arith, v.listed q, v.alive q, waits, off, down);
          settled = λ q. ground (arith, v.settled q, down);
          fresh = λ q h. ground (arith, v.fresh q, down);
          linked = v.linked;
          tied = v.tied;
        },
        refl,
      )
]

-- The connector's channel is writable: it hands over, tries again or gives up.
pub handle_write-IsValid :
    (err : ℕ) (self_connect poll_fails : Bool) (c : Client)
    → IsValid c
    → Connector.is_connecting c.connector.state ≡ true
    → c.next_conn_id + 1 < 2 ^ 31
    → (c' : Client) × (handle_write err self_connect poll_fails c ≡ ok c')
      × IsValid c'
      × (c'.next_conn_id ≤ c.next_conn_id + 1)
unfolding handle_write
handle_write-IsValid err self_connect poll_fails c v busy room =
    let (connector, ran, idle, gives) = handle_write_lem err self_connect c.connector busy v.tied in
    let alone : c.connection ≡ none = ground (arith, v.linked) in
    let c1 : Client = record c { connector = connector } in
    let valid : IsValid c1 = record {
      alive = v.alive;
      listed = v.listed;
      settled = v.settled;
      fresh = v.fresh;
      linked = ground (arith, alone);
      tied = ground (arith, idle);
    } in
    elim (Option-cases (handed connector.effects)) [
      | inl nothing ↦ (c1, ground (arith, ran, busy, nothing), valid, omega arith)
      | inr (fd, given) ↦
          let (c', made, kept, next) =
            new_connection-IsValid fd poll_fails c1 valid alone (ground (arith, gives, given))
              room in
          (c', ground (arith, ran, busy, given, made), kept, next)
    ]
