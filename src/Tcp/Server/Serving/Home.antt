-- ===== src/Tcp/Server/Serving/Home.antt =====
-- A server whose pool has no loops keeps every connection in the thread of its base loop. `start` of a pool
-- with threads faults, so that these are the servers that start.
use reactor_network_lib.Tcp.Server.{
  Server, new_connection, close_connection, remove_connection, remove_connection_in_loop,
  run_removal, run_destruction,
}
use reactor_network_lib.Tcp.Server.Runs
use reactor_network_lib.Tcp.Server.Serving.{Event, step, does, turns}
use reactor_network_lib.Tcp.Connection
use reactor_network_lib.Tcp.Connection.Answering.{run_turn}
use reactor_network_lib.ThreadPool.{get_next_loop}
use reactor_network_lib.Common.{
  Outcome-cases, ◌≡◌, ap, ℕ, List, [], ◌∙◌, ok, false, inr, arith, List-cases, Bool-cases, inl,
}
use reactor_network_lib.ThreadPool.Robin.{get_next_loop_base}

-- No loop but the base loop, and no method has run in another thread than that of its connection.
abbrev pub IsAtHome : Server → Type 0
IsAtHome s = (s.pool.loops ≡ []) × (s.wrong_thread ≡ false)

abbrev Same : Server → Server → Type 0
Same s s' = (s'.pool ≡ s.pool) × (s'.wrong_thread ≡ s.wrong_thread)

at_home : (s s' : Server) → Same s s' → IsAtHome s → IsAtHome s'
at_home s s' (pool, thread) (loops, fine) = (ap (λ p. p.loops) pool ∙ loops, thread ∙ fine)

new_connection-IsAtHome :
    (fd : ℕ) (s s' : Server) → new_connection fd s ≡ ok s' → IsAtHome s → IsAtHome s'
unfolding new_connection
new_connection-IsAtHome fd s s' ran (loops, fine) =
    let got : get_next_loop s.pool ≡ ok (s.pool.base_loop, s.pool) =
      get_next_loop_base s.pool loops in
    elim (Outcome-cases (Connection.create fd s.write_complete_callback)) [
      | inr (f, bad) ↦ absurd (ground (arith, got, bad))
      | inl (c, made) ↦ elim (Outcome-cases (Connection.connect_established c)) [
        | inr (f, bad) ↦ absurd (ground (arith, got, made, bad))
        | inl (c', up) ↦
            at_home s s' (ground (arith, got, made, up), ground (arith, got, made, up))
              (loops, fine)
      ]
    ]

close_connection-Same : (p : ℕ) (s s' : Server) → close_connection p s ≡ ok s' → Same s s'
unfolding close_connection remove_connection remove_connection_in_loop
close_connection-Same p s s' ran = elim (Outcome-cases (Connection.handle_close (s.objects p))) [
  | inr (f, bad) ↦ absurd (ground (arith, bad))
  | inl (c, closed) ↦ (ground (arith, closed), ground (arith, closed))
]

run_removal-Same : (s s' : Server) → run_removal s ≡ ok s' → Same s s'
unfolding run_removal remove_connection_in_loop
run_removal-Same s s' ran =
    (ground (arith, List-cases s.removals), ground (arith, List-cases s.removals))

run_destruction-Same : (s s' : Server) → run_destruction s ≡ ok s' → Same s s'
unfolding run_destruction
run_destruction-Same s s' ran = elim (List-cases s.destructions) [
  | inl none_left ↦ (ground (arith, none_left), ground (arith, none_left))
  | inr (p, ps, first) ↦ elim (Outcome-cases (Connection.connect_destoryed (s.objects p))) [
    | inr (f, bad) ↦ absurd (ground (arith, first, bad))
    | inl (c, ended) ↦ (ground (arith, first, ended), ground (arith, first, ended))
  ]
]

module _ (answer : List ℕ → List ℕ) where
  pub step-IsAtHome :
      (e : Event) (s s' : Server) → step answer e s ≡ ok s' → IsAtHome s → IsAtHome s'
  unfolding step Runs.step
  step-IsAtHome (does (Runs.arrives fd)) s s' ran h = new_connection-IsAtHome fd s s' ran h
  step-IsAtHome (does (Runs.closes p)) s s' ran h =
      elim (Bool-cases (s.objects p).channel.events.pollin) [
        | inl hearing ↦ at_home s s' (close_connection-Same p s s' (ground (arith, hearing))) h
        | inr deaf ↦ at_home s s' (ground (arith, deaf), ground (arith, deaf)) h
      ]
  step-IsAtHome (does Runs.removes) s s' ran h = at_home s s' (run_removal-Same s s' ran) h
  step-IsAtHome (does Runs.destroys) s s' ran h = at_home s s' (run_destruction-Same s s' ran) h
  step-IsAtHome (turns p t) s s' ran h = elim (Bool-cases (s.objects p).channel.events.pollin) [
    | inr deaf ↦ at_home s s' (ground (arith, deaf), ground (arith, deaf)) h
    | inl hearing ↦ elim (Outcome-cases (run_turn answer t (s.objects p))) [
      | inr (f, bad) ↦ absurd (ground (arith, hearing, bad))
      | inl (c, done) ↦
          at_home s s' (ground (arith, hearing, done), ground (arith, hearing, done)) h
    ]
  ]
