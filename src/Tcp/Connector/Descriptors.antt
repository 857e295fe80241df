-- ===== src/Tcp/Connector/Descriptors.antt =====
-- What every method of a connector keeps: the account of its descriptors, and the delay of its retries.
use reactor_network_lib.Tcp.Connector.{
  Connector, Effect, ℕ, Bool, start_in_loop, opens, closes, k_init_retry_delay_ms, Errno,
  queues_reset, resets, is_connecting, start, hands_over, restart, stop, reset_channel,
  handle_write, handle_error, after_connect, retry, give_up, connecting, unexpected, succeeded,
  einprogress, eintr, eisconn, eagain, eaddrinuse, eaddrnotavail, econnrefused, enetunreach, eacces,
  eperm, eafnosupport, ealready, ebadf, efault, enotsock,
}
use reactor_network_lib.Common.{
  ℕ, ◌≡◌, Bool, List, if◌then◌else◌, ◌∷◌, ◌+◌, ok, ◌==◌, false, [], none, some, ◌<◌, ◌⊎◌, inl, inr,
  refl,
}

-- How often an effect of a kind occurs.
abbrev pub tally : (Effect → ℕ) → List Effect → ℕ
tally weight [] = 0
tally weight (e ∷ es) = weight e + tally weight es

abbrev pub opening : ℕ → Effect → ℕ
opening x (opens fd) = if fd == x then 1 else 0
opening x _ = 0

-- A descriptor is closed, or handed over to the owner.
abbrev pub disposal : ℕ → Effect → ℕ
disposal x (closes fd) = if fd == x then 1 else 0
disposal x (hands_over fd) = if fd == x then 1 else 0
disposal x _ = 0

abbrev pub queued : Effect → ℕ
queued queues_reset = 1
queued _ = 0

abbrev pub done : Effect → ℕ
done resets = 1
done _ = 0

-- While it connects, the connector holds the descriptor of its channel.
abbrev pub held : ℕ → Connector → ℕ
held x c =
    if is_connecting c.state
    then (elim c.channel [ none ↦ 0 | some fd ↦ if fd == x then 1 else 0 ])
    else 0

pub record IsValid (c : Connector) : Type 0 where
  pub delay : c.retry_delay_ms ≡ k_init_retry_delay_ms
  pub balanced : (x : ℕ) → tally (opening x) c.effects ≡ tally (disposal x) c.effects + held x c
  pub resetting :
      tally queued c.effects + (if is_connecting c.state then 1 else 0)
      ≡ tally done c.effects + (elim c.channel [ none ↦ 0 | some fd ↦ 1 ])

-- One method that runs to its end. The loop resets the channel as often as that was queued; the owner
-- restarts a connector that is not connecting.
pub data Step : Connector → Connector → Type 0 where
  starts :
      {c c' : Connector} (in_loop : Bool) (fd : ℕ) (e : Errno)
      → start in_loop fd e c ≡ ok c'
      → Step c c'
  starts_in_loop :
      {c c' : Connector} (fd : ℕ) (e : Errno) → start_in_loop fd e c ≡ ok c' → Step c c'
  restarts :
      {c c' : Connector} (fd : ℕ) (e : Errno)
      → is_connecting c.state ≡ false
      → restart fd e c ≡ ok c'
      → Step c c'
  stops : (c : Connector) → Step c (stop c)
  resets_channel :
      (c : Connector) → tally done c.effects < tally queued c.effects → Step c (reset_channel c)
  writes :
      {c c' : Connector} (err : ℕ) (self_connect : Bool)
      → handle_write err self_connect c ≡ ok c'
      → Step c c'
  fails : {c c' : Connector} → handle_error c ≡ ok c' → Step c c'

-- What `connect` does with each errno.
pub after_connect_cases :
    (e : Errno)
    → ((fd : ℕ) (c : Connector) → after_connect e fd c ≡ connecting fd c)
      ⊎ (((fd : ℕ) (c : Connector) → after_connect e fd c ≡ ok (retry fd c))
          ⊎ ((fd : ℕ) (c : Connector) → after_connect e fd c ≡ ok (give_up fd c)))
unfolding after_connect
after_connect_cases succeeded = inl (λ fd c. refl)
after_connect_cases einprogress = inl (λ fd c. refl)
after_connect_cases eintr = inl (λ fd c. refl)
after_connect_cases eisconn = inl (λ fd c. refl)
after_connect_cases eagain = inr (inl (λ fd c. refl))
after_connect_cases eaddrinuse = inr (inl (λ fd c. refl))
after_connect_cases eaddrnotavail = inr (inl (λ fd c. refl))
after_connect_cases econnrefused = inr (inl (λ fd c. refl))
after_connect_cases enetunreach = inr (inl (λ fd c. refl))
after_connect_cases eacces = inr (inr (λ fd c. refl))
after_connect_cases eperm = inr (inr (λ fd c. refl))
after_connect_cases eafnosupport = inr (inr (λ fd c. refl))
after_connect_cases ealready = inr (inr (λ fd c. refl))
after_connect_cases ebadf = inr (inr (λ fd c. refl))
after_connect_cases efault = inr (inr (λ fd c. refl))
after_connect_cases enotsock = inr (inr (λ fd c. refl))
after_connect_cases (unexpected n) = inr (inr (λ fd c. refl))
