-- ===== src/Tcp/Server/Inv.antt =====
-- Where each connection of a server stands: in the map, on its way out of it, or on its way to its end.
use reactor_network_lib.Tcp.Connection.{Connection, is_open, is_connecting}
use reactor_network_lib.Common.{
  ℕ, List, if◌then◌else◌, ◌+◌, ◌∷◌, ◌≡◌, ◌<◌, ◌++◌, [], ok, ◌==◌, ◌^◌, arith, false, ◌≤◌, ◌||◌, not,
  refl, Bool-cases, true, List-cases, inl, inr, ◌∙◌,
}
use reactor_network_lib.Tcp.Server.{
  Server, new_connection, remove_connection_in_loop, erase_key, conn_name, insert_key, object_at,
  loop_at, remove_connection, close_connection, run_removal, run_destruction,
}
use reactor_network_lib.Tcp.Server.Names.{
  Keyed, entries, erase_key-entries, insert_key-entries, count_key-entries, erase_key-Keyed,
  insert_key-Keyed,
}
use reactor_network_lib.ThreadPool.Robin.{get_next_loop-InTurn, InTurn}
use reactor_network_lib.Tcp.Connection.Lifecycle.{
  establish_lem, handle_close_lem, connect_destoryed_lem,
}

-- How often a functor waits for a connection.
abbrev pub waiting : ℕ → List ℕ → ℕ
waiting p [] = 0
waiting p (q ∷ qs) = (if q == p then 1 else 0) + waiting p qs

pub waiting-snoc :
    (p q : ℕ) (ps : List ℕ) → waiting q (ps ++ p ∷ []) ≡ waiting q ps + (if p == q then 1 else 0)
waiting-snoc p q [] = ground arith
waiting-snoc p q (r ∷ ps) = ground (arith, waiting-snoc p q ps)

abbrev pub opens : Connection → ℕ
opens c = if is_open c.state then 1 else 0

abbrev pub hears : Connection → ℕ
hears c = if c.channel.events.pollin then 1 else 0

-- A connection that is open is in the map, or waits for its end; one that is in the map still hears its
-- peer, or waits for its removal.
pub record IsValid (s : Server) : Type 0 where
  pub keyed : Keyed s.name s.connections
  pub alive : (p : ℕ) → opens (s.objects p) ≡ entries p s.connections + waiting p s.destructions
  pub listed : (p : ℕ) → entries p s.connections ≡ hears (s.objects p) + waiting p s.removals
  pub settled : (p : ℕ) → is_connecting (s.objects p).state ≡ false
  pub fresh : (p : ℕ) → s.next_conn_id ≤ p → opens (s.objects p) ≡ 0
  pub in_turn : InTurn s.pool

-- `new_connection` fails no assertion while the counter of names fits an `int`, and keeps the invariant.
pub new_connection-IsValid :
    (fd : ℕ) (s : Server)
    → IsValid s
    → s.next_conn_id + 1 < 2 ^ 31
    → (s' : Server) × (new_connection fd s ≡ ok s')
      × IsValid s'
      × (s'.next_conn_id ≡ s.next_conn_id + 1)
      × (entries s.next_conn_id s'.connections ≡ 1)
unfolding new_connection
new_connection-IsValid fd s v room =
    let (io_loop, pool, next, turn, _, _) = get_next_loop-InTurn s.pool v.in_turn in
    let (c, c', made, established, up, hearing) = establish_lem fd s.write_complete_callback in
    let id = s.next_conn_id in
    let free : entries id s.connections ≡ 0 = omega (arith, v.alive id, v.fresh id) in
    let added = λ (q : ℕ). insert_key-entries s.name id q s.connections v.keyed free in
    let s' : Server = record s {
      next_conn_id = id + 1;
      pool = pool;
      connections = insert_key (conn_name s.name id) id s.connections;
      objects = object_at s.objects id c';
      loops = loop_at s.loops id io_loop;
      wrong_thread = s.wrong_thread || not (io_loop == s.pool.base_loop);
    } in
    (
      s',
      ground (arith, next, made, established),
      record {
        keyed = insert_key-Keyed s.name id s.connections v.keyed;
        alive = λ q. ground (arith, v.alive q, v.fresh id, added q);
        listed = λ q. ground (arith, v.listed q, v.alive q, v.fresh id, added q);
        settled = λ q. ground (arith, v.settled q);
        fresh = λ q h. ground (arith, v.fresh q);
        in_turn = turn;
      },
      refl,
      ground (arith, added id),
    )

-- `remove_connection_in_loop` of a connection that is in the map and hears its peer no longer.
pub remove_in_loop-IsValid :
    (p : ℕ) (s : Server) (ps : List ℕ)
    → IsValid (record s { removals = p ∷ ps })
    → (s' : Server) × (remove_connection_in_loop p (record s { removals = ps }) ≡ ok s')
      × IsValid s'
      × (s'.next_conn_id ≡ s.next_conn_id)
unfolding remove_connection_in_loop
remove_in_loop-IsValid p s ps v =
    let once : entries p s.connections ≡ 1 = ground (arith, v.listed p, v.alive p) in
    let gone = λ (q : ℕ). erase_key-entries s.name p q s.connections v.keyed in
    let more = λ (q : ℕ). waiting-snoc p q s.destructions in
    (
      record s {
        removals = ps;
        connections = erase_key (conn_name s.name p) s.connections;
        destructions = s.destructions ++ p ∷ [];
      },
      ground (arith, count_key-entries s.name p s.connections v.keyed, once),
      record {
        keyed = erase_key-Keyed s.name _ s.connections v.keyed;
        alive = λ q. ground (arith, v.alive q, gone q, more q, once);
        listed = λ q. ground (arith, v.listed q, gone q, once);
        settled = v.settled;
        fresh = v.fresh;
        in_turn = v.in_turn;
      },
      refl,
    )

-- `remove_connection`, once the channel of a connection in the map is off.
pub remove-IsValid :
    (p : ℕ) (s : Server)
    → IsValid (record s { removals = p ∷ s.removals })
    → (s' : Server) × (remove_connection p s ≡ ok s')
      × IsValid s'
      × (s'.next_conn_id ≡ s.next_conn_id)
unfolding remove_connection
remove-IsValid p s v = elim (Bool-cases (s.loops p == s.pool.base_loop)) [
  | inl here ↦
      let (s', ran, valid, same) = remove_in_loop-IsValid p s s.removals v in
      (s', rw here ran, valid, same)
  | inr there ↦ (
    record s { removals = s.removals ++ p ∷ [] },
    rw there refl,
    record {
      keyed = v.keyed;
      alive = v.alive;
      listed = λ q. ground (arith, v.listed q, waiting-snoc p q s.removals);
      settled = v.settled;
      fresh = v.fresh;
      in_turn = v.in_turn;
    },
    refl,
  )
]

-- A peer's close of a connection that still hears it.
pub close_connection-IsValid :
    (p : ℕ) (s : Server)
    → IsValid s
    → (s.objects p).channel.events.pollin ≡ true
    → (s' : Server) × (close_connection p s ≡ ok s')
      × IsValid s'
      × (s'.next_conn_id ≡ s.next_conn_id)
unfolding close_connection
close_connection-IsValid p s v hearing =
    let up : is_open (s.objects p).state ≡ true = ground (arith, v.listed p, v.alive p) in
    let (c, closed, same, off) = handle_close_lem (s.objects p) up in
    let deaf : hears c ≡ 0 = ground (arith, off) in
    let left : Server = record s { objects = object_at s.objects p c } in
    let valid : IsValid (record left { removals = p ∷ s.removals }) = record {
      keyed = v.keyed;
      alive = λ q. ground (arith, v.alive q, same);
      listed = λ q. ground (arith, v.listed q, deaf);
      settled = λ q. ground (arith, v.settled q, same);
      fresh = λ q h. ground (arith, v.fresh q, same);
      in_turn = v.in_turn;
    } in
    let (s', ran, kept, next) = remove-IsValid p left valid in (s', rw closed ran, kept, next)

run_removal_lem :
    (p : ℕ) (ps : List ℕ) (s : Server)
    → s.removals ≡ p ∷ ps
    → run_removal s ≡ remove_connection_in_loop p (record s { removals = ps })
unfolding run_removal
run_removal_lem p ps s first = ground arith

pub run_removal-IsValid :
    (s : Server)
    → IsValid s
    → (s' : Server) × (run_removal s ≡ ok s') × IsValid s' × (s'.next_conn_id ≡ s.next_conn_id)
unfolding run_removal
run_removal-IsValid s v = elim (List-cases s.removals) [
  | inl quiet ↦ (s, rw quiet refl, v, refl)
  | inr (p, ps, first) ↦
      let (s', ran, valid, next) = remove_in_loop-IsValid p s ps (record {
        keyed = v.keyed;
        alive = v.alive;
        listed = λ q. ground (arith, v.listed q, first);
        settled = v.settled;
        fresh = v.fresh;
        in_turn = v.in_turn;
      }) in
      (s', run_removal_lem p ps s first ∙ ran, valid, next)
]

pub run_destruction-IsValid :
    (s : Server)
    → IsValid s
    → (s' : Server) × (run_destruction s ≡ ok s') × IsValid s' × (s'.next_conn_id ≡ s.next_conn_id)
unfolding run_destruction
run_destruction-IsValid s v = elim (List-cases s.destructions) [
  | inl quiet ↦ (s, rw quiet refl, v, refl)
  | inr (p, ps, first) ↦
      let waits : waiting p s.destructions ≡ 1 + waiting p ps = ground (arith, first) in
      let up : is_open (s.objects p).state ≡ true = ground (arith, v.alive p, waits) in
      let (c, ended, down, off) = connect_destoryed_lem (s.objects p) up in
      (
        record s { destructions = ps; objects = object_at s.objects p c },
        rw first (rw ended refl),
        record {
          keyed = v.keyed;
          alive = λ q. ground (arith, v.alive q, first, down, waits);
          listed = λ q. ground (arith, v.listed q, v.alive q, waits, off);
          settled = λ q. ground (arith, v.settled q, down);
          fresh = λ q h. ground (arith, v.fresh q, down);
          in_turn = v.in_turn;
        },
        refl,
      )
]
