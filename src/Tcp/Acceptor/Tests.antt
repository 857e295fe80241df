-- ===== src/Tcp/Acceptor/Tests.antt =====
-- A server out of descriptors, on which the theorems on the acceptor are applied.
use reactor_network_lib.Tcp.Acceptor.{
  Acceptor, Round, opens, got, failed, emfile, listen, set_new_connection_callback, ℕ, false, ◌∷◌,
  none, some, create,
}
use reactor_network_lib.Tcp.Acceptor.Balance.{
  handle_reads, handle_reads_lem, Balanced, tally, receipt, release, holds,
}
use reactor_network_lib.Common.{ℕ, false, ◌∷◌, ◌≡◌, none, some, [], ◌+◌, arith, refl}

abbrev taking : ℕ → Round
taking fd = record {
  accepted = got fd;
  poll_fails = false;
  idle_accepted = none;
  idle_opened = none;
}

-- Out of descriptors: the idle one, 3, is given up for the connection.
abbrev full : Round
full = record {
  accepted = failed emfile;
  poll_fails = false;
  idle_accepted = some 3;
  idle_opened = some 3;
}

abbrev fresh : Acceptor
fresh = record {
  listenning = false;
  new_connection_callback = false;
  idle_fd = some 3;
  effects = opens 3 ∷ [];
}

abbrev after_rounds : Acceptor
after_rounds =
    handle_reads (taking 5 ∷ full ∷ taking 6 ∷ []) (listen (set_new_connection_callback fresh))

handle_reads_lem_example :
    tally (receipt 5) after_rounds.effects
    ≡ tally (release 5) after_rounds.effects + holds 5 after_rounds.idle_fd
unfolding create
handle_reads_lem_example = handle_reads_lem 3 fresh (taking 5 ∷ full ∷ taking 6 ∷ []) 5 refl

fresh-Balanced : Balanced none fresh
fresh-Balanced x = ground arith

-- A connection with descriptor 0 comes after one with 5.
