-- ===== src/Tcp/Server/Runs.antt =====
-- A server over any sequence of new connections, closes and functors that its loops run.
use reactor_network_lib.Tcp.Server.{
  Server, new_connection, close_connection, run_removal, run_destruction, ℕ, Outcome, List,
  count_key, conn_name,
}
use reactor_network_lib.Tcp.Server.Inv.{
  IsValid, new_connection-IsValid, close_connection-IsValid, run_removal-IsValid,
  run_destruction-IsValid, opens, hears,
}
use reactor_network_lib.Common.{
  ℕ, Outcome, List, ok, suc, ◌≡◌, if◌then◌else◌, ◌+◌, ◌∷◌, ◌<◌, [], ◌>>=◌, ◌^◌, arith, Bool-cases,
  refl, inl, inr, ◌∙◌, sym,
}
use reactor_network_lib.Tcp.Server.Names.{entries, count_key-entries}

pub data Event : Type 0 where
  arrives : ℕ → Event
  closes : ℕ → Event
  removes : Event
  destroys : Event

-- A peer's close reaches a connection whose channel waits for input; another channel has no events.
unfoldable pub step : Event → Server → Outcome Server
step (arrives fd) s = new_connection fd s
step (closes p) s = if (s.objects p).channel.events.pollin then close_connection p s else ok s
step removes s = run_removal s
step destroys s = run_destruction s

unfoldable pub run : List Event → Server → Outcome Server
run [] s = ok s
run (e ∷ es) s = do s' ← step e s; run es s'

abbrev pub arrivals : List Event → ℕ
arrivals [] = 0
arrivals (arrives _ ∷ es) = suc (arrivals es)
arrivals (_ ∷ es) = arrivals es

pub step-IsValid :
    (e : Event) (es : List Event) (s : Server)
    → IsValid s
    → s.next_conn_id + arrivals (e ∷ es) < 2 ^ 31
    → (s' : Server) × (step e s ≡ ok s')
      × IsValid s'
      × (s'.next_conn_id + arrivals es ≡ s.next_conn_id + arrivals (e ∷ es))
unfolding step
step-IsValid (arrives fd) es s v room =
    let (s', ran, valid, next, _) = new_connection-IsValid fd s v (omega arith) in
    (s', ran, valid, omega (arith, next))
step-IsValid (closes p) es s v room = elim (Bool-cases (s.objects p).channel.events.pollin) [
  | inl hearing ↦
      let (s', ran, valid, next) = close_connection-IsValid p s v hearing in
      (s', rw hearing ran, valid, omega (arith, next))
  | inr deaf ↦ (s, rw deaf refl, v, refl)
]
step-IsValid removes es s v room =
    let (s', ran, valid, next) = run_removal-IsValid s v in (s', ran, valid, omega (arith, next))
step-IsValid destroys es s v room =
    let (s', ran, valid, next) = run_destruction-IsValid s v in
    (s', ran, valid, omega (arith, next))

-- From a valid server, for fewer connections than an `int` can count: whatever the order in which
-- peers arrive and close and the loops run their functors, no assertion fails, and the server stays
-- valid: no two connections have one name, each is in the map while it is open and hears its peer, and
-- after a close it is removed once and destroyed once.
pub run_lem :
    (es : List Event) (s : Server)
    → IsValid s
    → s.next_conn_id + arrivals es < 2 ^ 31
    → (s' : Server) × (run es s ≡ ok s') × IsValid s'
unfolding run
run_lem [] s v room = (s, refl, v)
run_lem (e ∷ es) s v room =
    let (s', ran, valid, next) = step-IsValid e es s v room in
    let (s'', runs, valid') = run_lem es s' valid (omega (arith, next)) in
    (s'', rw ran runs, valid')

-- Once all functors have run, the connections that are open are exactly those that hear their peers,
-- and each of these has one entry in the map, under its own name.
pub settled_lem :
    (s : Server) (p : ℕ)
    → IsValid s
    → s.removals ≡ []
    → s.destructions ≡ []
    → (opens (s.objects p) ≡ hears (s.objects p))
      × (entries p s.connections ≡ opens (s.objects p))
      × (count_key (conn_name s.name p) s.connections ≡ opens (s.objects p))
settled_lem s p v no_removals no_destructions =
    let e : opens (s.objects p) ≡ entries p s.connections =
      ground (arith, v.alive p, no_destructions) in
    let f : entries p s.connections ≡ hears (s.objects p) =
      ground (arith, v.listed p, no_removals) in
    (e ∙ f, sym e, count_key-entries s.name p s.connections v.keyed ∙ sym e)
