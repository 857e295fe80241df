-- ===== src/Tcp/Connector/Preserve.antt =====
-- Every step of a connector keeps the count of its descriptors.
use reactor_network_lib.Tcp.Connector.{
  Connector, ℕ, Bool, start_in_loop, opens, k_init_retry_delay_ms, Errno, is_connecting, start,
  restart, stop, reset_channel, handle_write, handle_error, retry, give_up, connecting, connect,
  note, logs, is_disconnected, remove_and_reset_channel, queues_start, disconnected,
}
use reactor_network_lib.Common.{
  ℕ, ◌≡◌, Bool, if◌then◌else◌, ◌+◌, ok, ◌==◌, false, none, some, arith, inl, inr, sym, ◌∙◌, refl,
  true, Bool-cases,
}
use reactor_network_lib.Tcp.Connector.Descriptors.{
  tally, opening, disposal, queued, done, IsValid, Step, after_connect_cases, starts,
  starts_in_loop, restarts, stops, resets_channel, writes, fails,
}

-- A descriptor that has been opened and is not yet held, or is held no longer.
record IsLoose (fd : ℕ) (c : Connector) : Type 0 where
  delay : c.retry_delay_ms ≡ k_init_retry_delay_ms
  idle : is_connecting c.state ≡ false
  balanced :
      (x : ℕ)
      → tally (opening x) c.effects ≡ tally (disposal x) c.effects + (if fd == x then 1 else 0)
  resetting :
      tally queued c.effects ≡ tally done c.effects + (elim c.channel [ none ↦ 0 | some fd ↦ 1 ])

retry-IsValid : (fd : ℕ) (c : Connector) → IsLoose fd c → IsValid (retry fd c)
unfolding retry
retry-IsValid fd c v = record {
  delay = ground (arith, v.delay);
  balanced = λ x. ground (arith, v.balanced x);
  resetting = ground (arith, v.resetting);
}

give_up-IsValid : (fd : ℕ) (c : Connector) → IsLoose fd c → IsValid (give_up fd c)
unfolding give_up
give_up-IsValid fd c v = record {
  delay = v.delay;
  balanced = λ x. ground (arith, v.balanced x, v.idle);
  resetting = ground (arith, v.resetting, v.idle);
}

connecting-IsValid :
    (fd : ℕ) (c c' : Connector) → IsLoose fd c → connecting fd c ≡ ok c' → IsValid c'
unfolding connecting
connecting-IsValid fd c c' v ran = record {
  delay = ground (arith, v.delay);
  balanced = λ x. ground (arith, v.balanced x);
  resetting = ground (arith, v.resetting);
}

ok-injective : {a b : Connector} → ok a ≡ ok b → a ≡ b
ok-injective h = cc

connect-IsValid :
    (fd : ℕ) (e : Errno) (c c' : Connector)
    → IsValid c
    → is_connecting c.state ≡ false
    → connect fd e c ≡ ok c'
    → IsValid c'
unfolding connect
connect-IsValid fd e c c' v idle ran =
    let loose : IsLoose fd (note (opens fd) c) = record {
      delay = v.delay;
      idle = idle;
      balanced = λ x. ground (arith, v.balanced x);
      resetting = ground (arith, v.resetting);
    } in
    elim (after_connect_cases e) [
      | inl same ↦ connecting-IsValid fd (note (opens fd) c) c' loose (sym (same fd _) ∙ ran)
      | inr (inl same) ↦
          let valid = retry-IsValid fd (note (opens fd) c) loose in
          let out : ok (retry fd (note (opens fd) c)) ≡ ok c' = sym (same fd _) ∙ ran in
          rw (← ok-injective out) valid
      | inr (inr same) ↦
          let valid = give_up-IsValid fd (note (opens fd) c) loose in
          let out : ok (give_up fd (note (opens fd) c)) ≡ ok c' = sym (same fd _) ∙ ran in
          rw (← ok-injective out) valid
    ]

note_logs-IsValid : (c : Connector) → IsValid c → IsValid (note logs c)
note_logs-IsValid c v = record {
  delay = v.delay;
  balanced = λ x. ground (arith, v.balanced x);
  resetting = ground (arith, v.resetting);
}

note_start-IsValid : (c : Connector) → IsValid c → IsValid (note queues_start c)
note_start-IsValid c v = record {
  delay = v.delay;
  balanced = λ x. ground (arith, v.balanced x);
  resetting = ground (arith, v.resetting);
}

wanted-IsValid : (c : Connector) → IsValid c → IsValid (record c { wanted = true })
wanted-IsValid c v = record { delay = v.delay; balanced = v.balanced; resetting = v.resetting }

start_in_loop-IsValid :
    (fd : ℕ) (e : Errno) (c c' : Connector) → IsValid c → start_in_loop fd e c ≡ ok c' → IsValid c'
unfolding start_in_loop
start_in_loop-IsValid fd e c c' v ran =
    let down : is_disconnected c.state ≡ true = ground arith in
    let idle : is_connecting c.state ≡ false = ground arith in
    elim (Bool-cases c.wanted) [
      | inl wanted ↦ connect-IsValid fd e c c' v idle (ground arith)
      | inr unwanted ↦
          let out : ok (note logs c) ≡ ok c' = ground arith in
          rw (← ok-injective out) (note_logs-IsValid c v)
    ]

handle_write-IsValid :
    (err : ℕ) (self_connect : Bool) (c c' : Connector)
    → IsValid c
    → handle_write err self_connect c ≡ ok c'
    → IsValid c'
unfolding handle_write remove_and_reset_channel retry
handle_write-IsValid err self_connect c c' v ran = record {
  delay = ground (arith, v.delay);
  balanced = λ x. ground (arith, v.balanced x);
  resetting = ground (arith, v.resetting);
}

handle_error-IsValid : (c c' : Connector) → IsValid c → handle_error c ≡ ok c' → IsValid c'
unfolding handle_error remove_and_reset_channel retry
handle_error-IsValid c c' v ran = record {
  delay = ground (arith, v.delay);
  balanced = λ x. ground (arith, v.balanced x);
  resetting = ground (arith, v.resetting);
}

-- Every method keeps the invariant.
pub Step-IsValid : {c c' : Connector} → Step c c' → IsValid c → IsValid c'
unfolding start restart stop reset_channel
Step-IsValid (starts {c} {c'} true fd e ran) v =
    start_in_loop-IsValid fd e (record c { wanted = true }) c' (wanted-IsValid c v) ran
Step-IsValid (starts {c} {c'} false fd e ran) v =
    rw (← ok-injective ran) (note_start-IsValid (record c { wanted = true }) (wanted-IsValid c v))
Step-IsValid (starts_in_loop {c} {c'} fd e ran) v = start_in_loop-IsValid fd e c c' v ran
Step-IsValid (restarts {c} {c'} fd e idle ran) v =
    let fresh : Connector = record c {
      state = disconnected;
      retry_delay_ms = k_init_retry_delay_ms;
      wanted = true;
    } in
    let valid : IsValid fresh = record {
      delay = refl;
      balanced = λ x. ground (arith, v.balanced x);
      resetting = ground (arith, v.resetting);
    } in
    start_in_loop-IsValid fd e fresh c' valid ran
Step-IsValid (stops c) v = record {
  delay = v.delay;
  balanced = λ x. ground (arith, v.balanced x);
  resetting = ground (arith, v.resetting);
}
Step-IsValid (resets_channel c more) v = record {
  delay = v.delay;
  balanced = λ x. ground (arith, v.balanced x, v.resetting);
  resetting = ground (arith, v.resetting);
}
Step-IsValid (writes {c} {c'} err self_connect ran) v =
    handle_write-IsValid err self_connect c c' v ran
Step-IsValid (fails {c} {c'} ran) v = handle_error-IsValid c c' v ran
