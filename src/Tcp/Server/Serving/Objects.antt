-- ===== src/Tcp/Server/Serving/Objects.antt =====
-- What a step of the server does to its connections: one that still waits for input is as it was, or new.
use reactor_network_lib.Tcp.Server.{
  Server, new_connection, close_connection, remove_connection, remove_connection_in_loop,
  run_removal, run_destruction, object_at, Bool, ℕ,
}
use reactor_network_lib.Tcp.Server.Runs.{Event, step, arrives, closes, removes, destroys}
use reactor_network_lib.Tcp.Connection
use reactor_network_lib.Tcp.Connection.{Connection}
use reactor_network_lib.Tcp.Connection.Answering.Fresh.{
  IsNew, established-IsNew, handle_close_off, connect_destoryed_off,
}
use reactor_network_lib.ThreadPool.{get_next_loop}
use reactor_network_lib.Common.{
  Bool, ℕ, ◌≡◌, true, false, ok, ◌⊎◌, Outcome-cases, arith, List-cases, Bool-cases, inl, inr, ap,
  ◌==◌, ◌∙◌, ◌≤◌,
}

abbrev pub waits : Connection → Bool
waits c = c.channel.events.pollin

abbrev pub Kept : Server → Server → Type 0
Kept s s' =
    (q : ℕ)
    → waits (s'.objects q) ≡ true
    → (s'.objects q ≡ s.objects q) ⊎ IsNew (s'.objects q) × (s.next_conn_id ≤ q)

placed :
    (s s' : Server) (p : ℕ) (c : Connection)
    → s'.objects ≡ object_at s.objects p c
    → (waits c ≡ false) ⊎ IsNew c × (s.next_conn_id ≤ p)
    → Kept s s'
placed s s' p c at (inl off) q hearing = elim (Bool-cases (p == q)) [
  | inl here ↦ absurd (ground (arith, at))
  | inr apart ↦ inl (ap (λ o. o q) at ∙ ground (arith, apart))
]
placed s s' p c at (inr (new, late)) q hearing = elim (Bool-cases (p == q)) [
  | inl here ↦
      let same : s'.objects q ≡ c = ap (λ o. o q) at ∙ ground (arith, here) in
      inr (rw same new, ground (arith, here))
  | inr apart ↦ inl (ap (λ o. o q) at ∙ ground (arith, apart))
]

new_connection-Kept : (fd : ℕ) (s s' : Server) → new_connection fd s ≡ ok s' → Kept s s'
unfolding new_connection
new_connection-Kept fd s s' ran = elim (Outcome-cases (get_next_loop s.pool)) [
  | inr (f, bad) ↦ absurd (ground (arith, bad))
  | inl (next, got) ↦ elim (Outcome-cases (Connection.create fd s.write_complete_callback)) [
    | inr (f, bad) ↦ absurd (ground (arith, got, bad))
    | inl (c, made) ↦ elim (Outcome-cases (Connection.connect_established c)) [
      | inr (f, bad) ↦ absurd (ground (arith, got, made, bad))
      | inl (c', up) ↦
          placed s s' s.next_conn_id c' (ground (arith, got, made, up))
            (inr (established-IsNew fd s.write_complete_callback c c' made up, omega arith))
    ]
  ]
]

close_connection-Kept : (p : ℕ) (s s' : Server) → close_connection p s ≡ ok s' → Kept s s'
unfolding close_connection remove_connection remove_connection_in_loop
close_connection-Kept p s s' ran = elim (Outcome-cases (Connection.handle_close (s.objects p))) [
  | inr (f, bad) ↦ absurd (ground (arith, bad))
  | inl (c, closed) ↦
      placed s s' p c (ground (arith, closed)) (inl (handle_close_off (s.objects p) c closed))
]

run_removal-Kept : (s s' : Server) → run_removal s ≡ ok s' → Kept s s'
unfolding run_removal remove_connection_in_loop
run_removal-Kept s s' ran q hearing =
    let same : s'.objects ≡ s.objects = ground (arith, List-cases s.removals) in
    inl (ap (λ o. o q) same)

run_destruction-Kept : (s s' : Server) → run_destruction s ≡ ok s' → Kept s s'
unfolding run_destruction
run_destruction-Kept s s' ran = elim (List-cases s.destructions) [
  | inl none_left ↦ λ q hearing.
      (let same : s'.objects ≡ s.objects = ground (arith, none_left) in inl (ap (λ o. o q) same))
  | inr (p, ps, first) ↦ elim (Outcome-cases (Connection.connect_destoryed (s.objects p))) [
    | inr (f, bad) ↦ absurd (ground (arith, first, bad))
    | inl (c, ended) ↦
        placed s s' p c (ground (arith, first, ended))
          (inl (connect_destoryed_off (s.objects p) c ended))
  ]
]

pub step-Kept : (e : Event) (s s' : Server) → step e s ≡ ok s' → Kept s s'
unfolding step
step-Kept (arrives fd) s s' ran = new_connection-Kept fd s s' ran
step-Kept (closes p) s s' ran = elim (Bool-cases (s.objects p).channel.events.pollin) [
  | inl hearing ↦ close_connection-Kept p s s' (ground (arith, hearing))
  | inr deaf ↦
      λ q h. (let same : s'.objects ≡ s.objects = ground (arith, deaf) in inl (ap (λ o. o q) same))
]
step-Kept removes s s' ran = run_removal-Kept s s' ran
step-Kept destroys s s' ran = run_destruction-Kept s s' ran
