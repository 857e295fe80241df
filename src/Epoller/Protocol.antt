-- ===== src/Epoller/Protocol.antt =====
-- The calls of `epoll_ctl` against what the kernel watches.
use reactor_network_lib.Common.{
  ℕ, Bool, List, ◌≡◌, [], some, ok, if◌then◌else◌, false, none, ◌==◌, ◌++◌, true, ◌⊎◌, ◌∷◌, inl,
  inr, ◌≢◌, sym, ℕ_discrete, ◌∙◌, arith, ap, ℤ, refl, Bool-cases,
}
use reactor_network_lib.Epoller.{
  Epoller, update_channel, Ctl, k_new, ctl_add, k_added, k_deleted, ctl_mod, ctl_del, Store,
  Operation, set_index,
}
use reactor_network_lib.Channel.Store.{Store, ChannelMap, store_at, bind}
use reactor_network_lib.Channel.{set_index, is_none_event}

-- What the kernel watches after some calls: a descriptor is watched from its addition to its removal.
abbrev pub watch : (ℕ → Bool) → Ctl → ℕ → Bool
watch w c fd =
    if c.fd == fd
    then (elim c.operation [ ctl_add ↦ true | ctl_mod ↦ true | ctl_del ↦ false ])
    else w fd

-- `epoll_ctl` refuses to add what it watches, and to modify or remove what it does not.
abbrev pub Accepts : (ℕ → Bool) → Ctl → Type 0
Accepts w c = w c.fd ≡ (elim c.operation [ ctl_add ↦ false | ctl_mod ↦ true | ctl_del ↦ true ])

-- The calls are accepted one after the other, and the kernel then watches `w`.
pub data Watches : List Ctl → (ℕ → Bool) → Type 0 where
  start : Watches [] (λ fd. false)
  call :
      {cs : List Ctl} {w : ℕ → Bool} (c : Ctl)
      → Watches cs w
      → Accepts w c
      → Watches (cs ++ c ∷ []) (watch w c)

-- The state of a channel says whether the kernel watches its descriptor.
pub record IsValid (s : Epoller) (w : ℕ → Bool) : Type 0 where
  pub accepted : Watches s.calls w
  pub bound :
      (fd p : ℕ)
      → s.channels fd ≡ some p
      → ((s.store p).fd ≡ fd)
        × (((s.store p).index ≡ k_added) × (w fd ≡ true)
            ⊎ ((s.store p).index ≡ k_deleted) × (w fd ≡ false))
  pub free : (fd : ℕ) → s.channels fd ≡ none → w fd ≡ false

-- A channel that may be handed to `update_channel`.
abbrev pub IsReady : ℕ → Epoller → Type 0
IsReady p s =
    (((s.store p).index ≡ k_new) × (s.channels (s.store p).fd ≡ none))
    ⊎ (s.channels (s.store p).fd ≡ some p)

-- A call on behalf of the channel `p`, and what it leaves, keep the invariant.
module _ (p : ℕ) (s : Epoller) (w : ℕ → Bool) (v : IsValid s w) (st : Store) (m : ChannelMap)
    (c : Ctl) (own : c.fd ≡ (s.store p).fd) (accept : Accepts w c)
    (others : (q : ℕ) → p ≢ q → st q ≡ s.store q)
    (rest : (fd : ℕ) → (s.store p).fd ≢ fd → m fd ≡ s.channels fd) where
  abbrev pub after : Epoller
  after = record {
    store = st;
    channels = m;
    event_list_size = s.event_list_size;
    calls = s.calls ++ c ∷ [];
  }

  bound_other :
      (fd q : ℕ)
      → (s.store p).fd ≢ fd
      → m fd ≡ some q
      → ((st q).fd ≡ fd)
        × (((st q).index ≡ k_added) × (watch w c fd ≡ true)
            ⊎ ((st q).index ≡ k_deleted) × (watch w c fd ≡ false))
  bound_other fd q other h =
      let (e, state) = v.bound fd q (sym (rest fd other) ∙ h) in
      let apart : p ≢ q = λ (t : p ≡ q). ground arith in ground (arith, others q apart)

  after-IsValid :
      (st p).fd ≡ (s.store p).fd
      → m (s.store p).fd ≡ some p
      → ((st p).index ≡ k_added) × (watch w c (s.store p).fd ≡ true)
        ⊎ ((st p).index ≡ k_deleted) × (watch w c (s.store p).fd ≡ false)
      → IsValid after (watch w c)
  after-IsValid same here state = record {
    accepted = call c v.accepted accept;
    bound = λ fd q h. elim (ℕ_discrete (s.store p).fd fd) [
      | no other ↦ bound_other fd q other h
      | yes eq ↦ let me : some p ≡ some q = sym here ∙ (ap m eq ∙ h) in ground (arith, me)
    ];
    free = λ fd h. elim (ℕ_discrete (s.store p).fd fd) [
      | no other ↦ ground (arith, v.free fd, rest fd other)
      | yes eq ↦ let clash : some p ≡ none = sym here ∙ (ap m eq ∙ h) in cc
    ];
  }

-- The call that an operation makes for the channel `p`, and the store with its index set.
abbrev pub ctl : Operation → ℕ → Epoller → Ctl
ctl op p s = record { operation = op; fd = (s.store p).fd; events = (s.store p).events; ptr = p }

abbrev pub indexed : ℕ → ℤ → Epoller → Store
indexed p i s = store_at s.store p (set_index (s.store p) i)

abbrev pub Updated : ℕ → Epoller → (ℕ → Bool) → Type 0
Updated p s w =
    (s' : Epoller) × (c : Ctl) × (update_channel p s ≡ ok s')
    × (s'.calls ≡ s.calls ++ c ∷ [])
    × IsValid s' (watch w c)
    × (s'.channels (s.store p).fd ≡ some p)

module _ (p : ℕ) (s : Epoller) (w : ℕ → Bool) (v : IsValid s w) where
  update_new : (s.store p).index ≡ k_new → s.channels (s.store p).fd ≡ none → Updated p s w
  unfolding update_channel set_index
  update_new new free = (
    after p s w v (indexed p k_added s) (bind s.channels (s.store p).fd p) (ctl ctl_add p s) refl
        (v.free (s.store p).fd free) (λ q ne. ground arith) (λ fd ne. ground arith),
    ctl ctl_add p s,
    ground arith,
    refl,
    after-IsValid p s w v (indexed p k_added s) (bind s.channels (s.store p).fd p) (ctl ctl_add p s)
        refl (v.free (s.store p).fd free) (λ q ne. ground arith) (λ fd ne. ground arith)
        (ground arith) (ground arith) (ground arith),
    ground arith,
  )

  update_deleted :
      (s.store p).index ≡ k_deleted
      → s.channels (s.store p).fd ≡ some p
      → w (s.store p).fd ≡ false
      → Updated p s w
  unfolding update_channel set_index
  update_deleted deleted bound off = (
    after p s w v (indexed p k_added s) s.channels (ctl ctl_add p s) refl off (λ q ne. ground arith)
        (λ fd ne. refl),
    ctl ctl_add p s,
    ground arith,
    refl,
    after-IsValid p s w v (indexed p k_added s) s.channels (ctl ctl_add p s) refl off
        (λ q ne. ground arith) (λ fd ne. refl) (ground arith) bound (ground arith),
    bound,
  )

  update_idle :
      (s.store p).index ≡ k_added
      → s.channels (s.store p).fd ≡ some p
      → w (s.store p).fd ≡ true
      → is_none_event (s.store p) ≡ true
      → Updated p s w
  unfolding update_channel set_index
  update_idle added bound on idle = (
    after p s w v (indexed p k_deleted s) s.channels (ctl ctl_del p s) refl on
        (λ q ne. ground arith) (λ fd ne. refl),
    ctl ctl_del p s,
    ground arith,
    refl,
    after-IsValid p s w v (indexed p k_deleted s) s.channels (ctl ctl_del p s) refl on
        (λ q ne. ground arith) (λ fd ne. refl) (ground arith) bound (ground arith),
    bound,
  )

  update_busy :
      (s.store p).index ≡ k_added
      → s.channels (s.store p).fd ≡ some p
      → w (s.store p).fd ≡ true
      → is_none_event (s.store p) ≡ false
      → Updated p s w
  unfolding update_channel set_index
  update_busy added bound on busy = (
    after p s w v s.store s.channels (ctl ctl_mod p s) refl on (λ q ne. refl) (λ fd ne. refl),
    ctl ctl_mod p s,
    ground arith,
    refl,
    after-IsValid p s w v s.store s.channels (ctl ctl_mod p s) refl on (λ q ne. refl)
        (λ fd ne. refl) refl bound (ground arith),
    bound,
  )

-- On a valid epoller, `update_channel` of a channel that is bound, or new with a free descriptor,
-- fails no assertion and makes exactly one call of `epoll_ctl`, one that the kernel accepts; the
-- epoller stays valid, and the channel is bound to its descriptor.
pub update_channel-IsValid :
    (p : ℕ) (s : Epoller) (w : ℕ → Bool) → IsValid s w → IsReady p s → Updated p s w
update_channel-IsValid p s w v (inl (new, free)) = update_new p s w v new free
update_channel-IsValid p s w v (inr bound) =
    let (e, state) = v.bound (s.store p).fd p bound in
    elim state [
      | inr (deleted, off) ↦ update_deleted p s w v deleted bound off
      | inl (added, on) ↦ elim (Bool-cases (is_none_event (s.store p))) [
        | inl idle ↦ update_idle p s w v added bound on idle
        | inr busy ↦ update_busy p s w v added bound on busy
      ]
    ]
