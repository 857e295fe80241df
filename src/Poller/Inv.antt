-- ===== src/Poller/Inv.antt =====
-- The list of entries and the map of channels describe the same channels.
use reactor_network_lib.Common.{
  ℕ, ◌≡◌, some, pos, get_elem?, is_neg, true, length, ok, Bool-cases, none, ◌++◌, ◌==◌, inl, arith,
  ◌∷◌, [], get_elem?-snoc_last, inr, ◌-◌, length-append, ◌≢◌, get_elem?-snoc_ne, lt_of_get_elem?,
  ◌∙◌, sym, set, get_elem?-set_self, get_elem?-set_ne, ap,
}
use reactor_network_lib.Poller.{Poller, PollFd, fd_of, store_at, update_channel, set_index, rewrite}
use reactor_network_lib.Channel.Store.{store_at, bind}
use reactor_network_lib.Channel.{set_index, k_none_event}

-- Where a descriptor is bound, its channel's index leads to its entry; and every entry is that of a
-- bound channel.
pub record IsValid (s : Poller) : Type 0 where
  pub registered :
      (fd p : ℕ)
      → s.channels fd ≡ some p
      → ((s.store p).fd ≡ fd)
        × (i : ℕ) × ((s.store p).index ≡ pos i)
        × (f : PollFd) × (get_elem? s.poll_fds i ≡ some f)
        × (fd_of f.fd ≡ fd)
  pub listed :
      (i : ℕ) (f : PollFd)
      → get_elem? s.poll_fds i ≡ some f
      → (p : ℕ) × (s.channels (fd_of f.fd) ≡ some p) × ((s.store p).index ≡ pos i)

-- A channel may be handed to `update_channel` when it is registered, or when it is new and no other
-- channel has its descriptor.
abbrev pub IsRegistered : ℕ → Poller → Type 0
IsRegistered p s = s.channels (s.store p).fd ≡ some p

abbrev pub IsNew : ℕ → Poller → Type 0
IsNew p s = (is_neg (s.store p).index ≡ true) × (s.channels (s.store p).fd ≡ none)

module _ (p : ℕ) (s : Poller) (v : IsValid s) where
  abbrev pub added : Poller
  added = record {
    store = store_at s.store p (set_index (s.store p) (pos (length s.poll_fds)));
    poll_fds =
        s.poll_fds
        ++ (record { fd = pos (s.store p).fd; events = (s.store p).events; revents = k_none_event })
          ∷ [];
    channels = bind s.channels (s.store p).fd p;
  }

  update_new : IsNew p s → update_channel p s ≡ ok added
  unfolding update_channel
  update_new new =
      let size : length (
              s.poll_fds
              ++ (record {
                fd = pos (s.store p).fd;
                events = (s.store p).events;
                revents = k_none_event;
              })
                ∷ [])
            - 1
          ≡ length s.poll_fds =
        omega (arith, length-append s.poll_fds) in
      ground (arith, size)

  added-registered :
      IsNew p s
      → (fd q : ℕ) → added.channels fd ≡ some q
      → ((added.store q).fd ≡ fd)
        × (i : ℕ) × ((added.store q).index ≡ pos i)
        × (f : PollFd) × (get_elem? added.poll_fds i ≡ some f)
        × (fd_of f.fd ≡ fd)
  unfolding set_index
  added-registered new fd q h = elim (Bool-cases ((s.store p).fd == fd)) [
    | inl same ↦ (
      ground arith,
      length s.poll_fds,
      ground arith,
      record { fd = pos (s.store p).fd; events = (s.store p).events; revents = k_none_event },
      get_elem?-snoc_last s.poll_fds _,
      ground arith,
    )
    | inr other ↦
        let (e, i, at, f, found, is) = v.registered fd q (ground arith) in
        let apart : p ≢ q = λ (t : p ≡ q). ground arith in
        (
          ground arith,
          i,
          ground arith,
          f,
          get_elem?-snoc_ne s.poll_fds _ i (omega (arith, lt_of_get_elem? s.poll_fds i found))
              ∙ found,
          is,
        )
  ]

  added-listed :
      IsNew p s
      → (i : ℕ) (f : PollFd) → get_elem? added.poll_fds i ≡ some f
      → (q : ℕ) × (added.channels (fd_of f.fd) ≡ some q) × ((added.store q).index ≡ pos i)
  unfolding set_index
  added-listed new i f h = elim (Bool-cases (i == length s.poll_fds)) [
    | inl last ↦ (
      p,
      ground (
        arith,
        get_elem?-snoc_last s.poll_fds (record {
          fd = pos (s.store p).fd;
          events = (s.store p).events;
          revents = k_none_event;
        }),
      ),
      ground arith,
    )
    | inr within ↦
        let old : get_elem? s.poll_fds i ≡ some f =
          sym (get_elem?-snoc_ne s.poll_fds _ i (λ e. ground arith)) ∙ h in
        let (q, bound, at) = v.listed i f old in
        let apart : p ≢ q = λ (t : p ≡ q). ground arith in (q, ground arith, ground arith)
  ]

  -- On a valid poller, a new channel with a free descriptor is added without an assertion failing;
  -- it gets the next index, and the poller stays valid.
  pub update_new-IsValid : IsNew p s → (update_channel p s ≡ ok added) × IsValid added
  update_new-IsValid new =
      (update_new new, record { registered = added-registered new; listed = added-listed new })

  replaced-IsValid :
      (i : ℕ) (f f' : PollFd)
      → get_elem? s.poll_fds i ≡ some f
      → fd_of f'.fd ≡ fd_of f.fd
      → IsValid (record s { poll_fds = set s.poll_fds i f' })
  replaced-IsValid i f f' found same = record {
    registered = λ fd q h.
        let (e, j, at, g, held, is) = v.registered fd q h in
        elim (Bool-cases (i == j)) [
          | inl here ↦ (
            e,
            j,
            at,
            f',
            (let eq : i ≡ j = ground arith in
                rw (← eq)
                  (get_elem?-set_self s.poll_fds i f' (lt_of_get_elem? s.poll_fds i found))),
            (let eq : i ≡ j = ground arith in
                let both : get_elem? s.poll_fds i ≡ some g = rw eq held in ground arith),
          )
          | inr there ↦
              (e, j, at, g, get_elem?-set_ne s.poll_fds i j f' (λ t. ground arith) ∙ held, is)
        ];
    listed = λ j g h. elim (Bool-cases (i == j)) [
      | inl here ↦
          let eq : i ≡ j = ground arith in
          let new : some f' ≡ some g =
            sym (get_elem?-set_self s.poll_fds i f' (lt_of_get_elem? s.poll_fds i found))
            ∙ (ap (get_elem? (set s.poll_fds i f')) eq ∙ h) in
          let (q, bound, at) = v.listed i f found in (q, ground arith, ground arith)
      | inr there ↦ v.listed j g (sym (get_elem?-set_ne s.poll_fds i j f' (λ t. ground arith)) ∙ h)
    ];
  }

  -- The entry that the channel's index leads to.
  pub update_at :
      (i : ℕ) (f : PollFd)
      → IsRegistered p s
      → (s.store p).index ≡ pos i
      → get_elem? s.poll_fds i ≡ some f
      → fd_of f.fd ≡ (s.store p).fd
      → (update_channel p s ≡ ok (record s { poll_fds = set s.poll_fds i (rewrite (s.store p) f) }))
        × IsValid (record s { poll_fds = set s.poll_fds i (rewrite (s.store p) f) })
  unfolding update_channel
  update_at i f reg at found is =
      let within = lt_of_get_elem? s.poll_fds i found in
      (ground arith, replaced-IsValid i f (rewrite (s.store p) f) found (ground arith))

  -- On a valid poller, the entry of a registered channel is found and rewritten in place, without
  -- an assertion failing, and the poller stays valid.
  pub update_registered-IsValid :
      IsRegistered p s
      → (i : ℕ) × (f : PollFd) × (get_elem? s.poll_fds i ≡ some f)
        × (update_channel p s
            ≡ ok (record s { poll_fds = set s.poll_fds i (rewrite (s.store p) f) }))
        × IsValid (record s { poll_fds = set s.poll_fds i (rewrite (s.store p) f) })
  update_registered-IsValid reg =
      let (e, i, at, f, found, is) = v.registered (s.store p).fd p reg in
      let (ran, valid) = update_at i f reg at found is in (i, f, found, ran, valid)
