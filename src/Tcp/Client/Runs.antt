-- ===== src/Tcp/Client/Runs.antt =====
-- A client over any sequence of its owner's calls and of what its loop runs.
use reactor_network_lib.Tcp.Client.{
  Client, object_at, connect, disconnect, stop, handle_error, reset_channel, start_in_loop, Bool,
  List,
}
use reactor_network_lib.Tcp.Client.Inv.{
  IsValid, handle_write-IsValid, close_connection-IsValid, run_destruction-IsValid, has_some,
}
use reactor_network_lib.Tcp.Connector
use reactor_network_lib.Tcp.Connector.{Connector, Errno, is_connecting, is_disconnected, has_none}
use reactor_network_lib.Tcp.Connector.Handover.{
  is_tied, is_up, start_lem, start_in_loop_lem, handle_error_lem,
}
use reactor_network_lib.Tcp.Connection.Lifecycle.{shut_lem}
use reactor_network_lib.Common.{
  Bool, List, not, ◌≡◌, ok, ◌||◌, some, ◌&&◌, ◌+◌, ◌∷◌, true, Option-cases, ◌≤◌, ◌<◌, inl, [], ◌^◌,
  false, arith, inr, refl, Bool-cases,
}
use reactor_network_lib.Tcp.Client.Events.{
  Event, step, run, orderly, handovers, waits_its_turn, connects, disconnects, stops, fires, writes,
  fails, resets, closes, destroys,
}

-- A change of the connector alone.
with_connector :
    (c : Client) (k : Connector)
    → IsValid c
    → (not (has_some c.connection) || is_up k.state) ≡ true
    → is_tied k ≡ true
    → IsValid (record c { connector = k })
with_connector c k v linked tied = record {
  alive = v.alive;
  listed = v.listed;
  settled = v.settled;
  fresh = v.fresh;
  linked = linked;
  tied = tied;
}

wanted_lem : (c : Client) (b : Bool) → IsValid c → IsValid (record c { wanted = b })
wanted_lem c b v = record {
  alive = v.alive;
  listed = v.listed;
  settled = v.settled;
  fresh = v.fresh;
  linked = v.linked;
  tied = v.tied;
}

-- `disconnect` ends within two rounds of the loop of `shutdown`.
disconnect-IsValid :
    (c : Client)
    → IsValid c
    → (c' : Client) × (disconnect 2 c ≡ some c') × IsValid c' × (c'.next_conn_id ≡ c.next_conn_id)
unfolding disconnect
disconnect-IsValid c v = elim (Option-cases c.connection) [
  | inl alone ↦ (record c { wanted = false }, ground (arith, alone), wanted_lem c false v, refl)
  | inr (p, own) ↦
      let (conn, ran, open_still, settled, same) = shut_lem (c.objects p) in
      (
        record c { wanted = false; objects = object_at c.objects p conn },
        ground (arith, own, ran),
        record {
          alive = λ q. ground (arith, v.alive q, open_still);
          listed = λ q. ground (arith, v.listed q, same);
          settled = λ q. ground (arith, v.settled q, settled);
          fresh = λ q h. ground (arith, v.fresh q, open_still);
          linked = v.linked;
          tied = v.tied;
        },
        refl,
      )
]

Stepped : Event → List Event → Client → Type 0
Stepped e es c =
    (c' : Client) × (step e c ≡ ok c')
    × IsValid c'
    × (c'.next_conn_id + handovers es ≤ c.next_conn_id + handovers (e ∷ es))

step-IsValid :
    (e : Event) (es : List Event) (c : Client)
    → IsValid c
    → c.next_conn_id + handovers (e ∷ es) < 2 ^ 31
    → waits_its_turn e c ≡ true
    → Stepped e es c
unfolding step connect start_in_loop handle_error reset_channel stop Connector.reset_channel
    Connector.stop Stepped
step-IsValid (connects fd e) es c v room idle =
    let (k, ran, tied) = start_lem fd e c.connector (ground arith) (ground arith) in
    let alone : has_some c.connection ≡ false = ground (arith, v.linked) in
    (
      record c { wanted = true; connector = k },
      ground (arith, idle, ran),
      wanted_lem _ true (with_connector c k v (ground (arith, alone)) tied),
      omega arith,
    )
step-IsValid disconnects es c v room turn =
    let (c', ran, valid, next) = disconnect-IsValid c v in
    (c', ground (arith, ran), valid, omega (arith, next))
step-IsValid stops es c v room turn = (
  stop c,
  refl,
  wanted_lem _ false (with_connector c (Connector.stop c.connector) v v.linked v.tied),
  omega arith,
)
step-IsValid (fires fd e) es c v room idle =
    let (k, ran, tied) = start_in_loop_lem fd e c.connector (ground arith) (ground arith) in
    let alone : has_some c.connection ≡ false = ground (arith, v.linked) in
    (
      record c { connector = k },
      ground (arith, idle, ran),
      with_connector c k v (ground (arith, alone)) tied,
      omega arith,
    )
step-IsValid (writes err self_connect poll_fails) es c v room turn =
    elim (Bool-cases (is_connecting c.connector.state)) [
      | inl busy ↦
          let (c', ran, valid, next) =
            handle_write-IsValid err self_connect poll_fails c v busy (omega arith) in
          (c', rw busy ran, valid, omega (arith, next))
      | inr idle ↦ (c, rw idle refl, v, omega arith)
    ]
step-IsValid fails es c v room turn = elim (Bool-cases (is_connecting c.connector.state)) [
  | inl busy ↦
      let (k, ran, idle) = handle_error_lem c.connector busy v.tied in
      let alone : has_some c.connection ≡ false = ground (arith, v.linked) in
      (
        record c { connector = k },
        ground (arith, busy, ran),
        with_connector c k v (ground (arith, alone)) (ground (arith, idle)),
        omega arith,
      )
  | inr idle ↦ (c, rw idle refl, v, omega arith)
]
step-IsValid resets es c v room turn = elim (Bool-cases (is_connecting c.connector.state)) [
  | inl busy ↦ (c, rw busy refl, v, omega arith)
  | inr idle ↦ (
    reset_channel c,
    rw idle refl,
    with_connector c (Connector.reset_channel c.connector) v v.linked (ground (arith, idle)),
    omega arith,
  )
]
step-IsValid (closes p fd e) es c v room turn =
    elim (Bool-cases ((c.objects p).channel.events.pollin && has_none c.connector.channel)) [
      | inl hearing ↦
          let (c', ran, valid, next) =
            close_connection-IsValid p fd e c v (ground arith) (ground arith) in
          (c', rw hearing ran, valid, omega (arith, next))
      | inr deaf ↦ (c, rw deaf refl, v, omega arith)
    ]
step-IsValid destroys es c v room turn =
    let (c', ran, valid, next) = run_destruction-IsValid c v in
    (c', ran, valid, omega (arith, next))

-- From a valid client, for fewer connections than an `int` can count: where its owner asks it to connect,
-- and the timers of retries fire, only while its connector is idle, then whatever else its owner and
-- its loop do in whatever order, no assertion fails, and the client stays valid: it has at most one
-- connection that hears its peer, which is the one it keeps, no connection takes the place of another
-- that is open, and after a close a connection is destroyed once.
pub client_run_lem :
    (es : List Event) (c : Client)
    → IsValid c
    → c.next_conn_id + handovers es < 2 ^ 31
    → orderly es c ≡ true
    → (c' : Client) × (run es c ≡ ok c') × IsValid c'
unfolding run Stepped orderly
client_run_lem [] c v room turns = (c, refl, v)
client_run_lem (e ∷ es) c v room turns =
    let (c', ran, valid, next) = step-IsValid e es c v room (ground arith) in
    let later : orderly es c' ≡ true = ground (arith, ran) in
    let (c'', runs, valid') = client_run_lem es c' valid (omega (arith, next)) later in
    (c'', rw ran runs, valid')
