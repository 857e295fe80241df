-- ===== src/Poller/Swap.antt =====
-- What `remove_channel` leaves: the last entry goes, or takes the place of the one that goes.
use reactor_network_lib.Common.{
  ℕ, List, ◌<◌, get_elem?, length, take, ◌≡◌, ◌-◌, ◌≢◌, some, pos, get_elem?-take_lt, arith, ◌∙◌,
  lt_of_get_elem?, sym, get_elem?-set_ne, length-take, ap, set, get_elem?-set_self, Bool-cases,
  ◌==◌, inl, inr,
}
use reactor_network_lib.Poller.{PollFd, Poller, swap_out, fd_of, erase, set_index}
use reactor_network_lib.Poller.Inv.{IsValid, IsRegistered}
use reactor_network_lib.Channel.Store.{erase, store_at}
use reactor_network_lib.Channel.{set_index}

module _ (i : ℕ) (f last : PollFd) (xs : List PollFd) (within : i < length xs - 1) where
  swap_out_at : get_elem? (swap_out i f last xs) i ≡ some last
  swap_out_at =
      get_elem?-take_lt (length xs - 1) i _ within
      ∙ get_elem?-set_ne (set xs i last) (length xs - 1) i f (omega arith)
      ∙ get_elem?-set_self xs i last (omega arith)

  swap_out_ne :
      (j : ℕ) → j < length xs - 1 → i ≢ j → get_elem? (swap_out i f last xs) j ≡ get_elem? xs j
  swap_out_ne j below apart =
      get_elem?-take_lt (length xs - 1) j _ below
      ∙ get_elem?-set_ne (set xs i last) (length xs - 1) j f (omega arith)
      ∙ get_elem?-set_ne xs i j last apart

lt_of_take : (n j : ℕ) (xs : List PollFd) {g : PollFd} → get_elem? (take n xs) j ≡ some g → j < n
lt_of_take n j xs h = omega (arith, lt_of_get_elem? (take n xs) j h, length-take n xs)

module _ (p : ℕ) (s : Poller) (v : IsValid s) (reg : IsRegistered p s) (i : ℕ) (f : PollFd)
    (at : (s.store p).index ≡ pos i) (found : get_elem? s.poll_fds i ≡ some f)
    (is : fd_of f.fd ≡ (s.store p).fd) where
  -- No other channel's entry stands at the index of this one, and no other entry is this channel's.
  other_index :
      (fd q j : ℕ) (g : PollFd)
      → (s.store p).fd ≢ fd
      → get_elem? s.poll_fds j ≡ some g
      → fd_of g.fd ≡ fd
      → i ≢ j
  other_index fd q j g other held of same =
      let both : some f ≡ some g = sym found ∙ (ap (get_elem? s.poll_fds) same ∙ held) in
      ground arith

  pub other_entry :
      (j q : ℕ) (g : PollFd)
      → s.channels (fd_of g.fd) ≡ some q
      → (s.store q).index ≡ pos j
      → i ≢ j
      → (s.store p).fd ≢ fd_of g.fd
  other_entry j q g bound leads apart same =
      let both : some p ≡ some q = sym reg ∙ (ap s.channels same ∙ bound) in ground arith

  abbrev pub popped : Poller
  popped = record s {
    poll_fds = take (length s.poll_fds - 1) s.poll_fds;
    channels = erase s.channels (s.store p).fd;
  }

  pub popped-IsValid : i ≡ length s.poll_fds - 1 → IsValid popped
  popped-IsValid last = record {
    registered = λ fd q h.
        let other : (s.store p).fd ≢ fd = λ t. ground arith in
        let (e, j, leads, g, held, of) = v.registered fd q (ground arith) in
        let apart = other_index fd q j g other held of in
        (
          e,
          j,
          leads,
          g,
          get_elem?-take_lt (length s.poll_fds - 1) j s.poll_fds
                (omega (arith, lt_of_get_elem? s.poll_fds j held))
              ∙ held,
          of,
        );
    listed = λ j g h.
        let below = lt_of_take (length s.poll_fds - 1) j s.poll_fds h in
        let (q, bound, leads) =
          v.listed j g (sym (get_elem?-take_lt (length s.poll_fds - 1) j s.poll_fds below) ∙ h) in
        let other = other_entry j q g bound leads (omega arith) in (q, ground arith, leads);
  }

  module _ (last : PollFd) (q_last : ℕ) (within : i < length s.poll_fds - 1)
      (at_end : get_elem? s.poll_fds (length s.poll_fds - 1) ≡ some last)
      (bound_last : s.channels (fd_of last.fd) ≡ some q_last)
      (leads_last : (s.store q_last).index ≡ pos (length s.poll_fds - 1)) where
    abbrev pub swapped : Poller
    swapped = record {
      store = store_at s.store q_last (set_index (s.store q_last) (pos i));
      poll_fds = swap_out i f last s.poll_fds;
      channels = erase s.channels (s.store p).fd;
    }

    swapped-registered :
        (fd q : ℕ)
        → swapped.channels fd ≡ some q
        → ((swapped.store q).fd ≡ fd)
          × (j : ℕ) × ((swapped.store q).index ≡ pos j)
          × (g : PollFd) × (get_elem? swapped.poll_fds j ≡ some g)
          × (fd_of g.fd ≡ fd)
    unfolding set_index
    swapped-registered fd q h =
        let other : (s.store p).fd ≢ fd = λ t. ground arith in
        let (e, j, leads, g, held, of) = v.registered fd q (ground arith) in
        let apart = other_index fd q j g other held of in
        elim (Bool-cases (j == length s.poll_fds - 1)) [
          | inl end ↦
              let eq : j ≡ length s.poll_fds - 1 = ground arith in
              let both : some last ≡ some g =
                sym at_end ∙ (ap (get_elem? s.poll_fds) (sym eq) ∙ held) in
              let same : some q_last ≡ some q = sym bound_last ∙ ground (arith, both) in
              (
                ground (arith, same),
                i,
                ground (arith, same),
                last,
                swap_out_at i f last s.poll_fds within,
                ground (arith, both),
              )
          | inr before ↦
              let below : j < length s.poll_fds - 1 =
                ground (arith, lt_of_get_elem? s.poll_fds j held) in
              let kept : q_last ≢ q = λ (t : q_last ≡ q). ground arith in
              (
                ground arith,
                j,
                ground arith,
                g,
                swap_out_ne i f last s.poll_fds within j below apart ∙ held,
                of,
              )
        ]

    swapped-listed :
        (j : ℕ) (g : PollFd)
        → get_elem? swapped.poll_fds j ≡ some g
        → (q : ℕ) × (swapped.channels (fd_of g.fd) ≡ some q) × ((swapped.store q).index ≡ pos j)
    unfolding set_index
    swapped-listed j g h =
        let below = lt_of_take (length s.poll_fds - 1) j _ h in
        elim (Bool-cases (i == j)) [
          | inl here ↦
              let eq : i ≡ j = ground arith in
              let both : some last ≡ some g =
                sym (swap_out_at i f last s.poll_fds within)
                ∙ (ap (get_elem? (swap_out i f last s.poll_fds)) eq ∙ h) in
              let apart : (s.store p).fd ≢ fd_of last.fd =
                other_entry (length s.poll_fds - 1) q_last last bound_last leads_last
                  (omega arith) in
              (q_last, ground (arith, both), ground (arith, both))
          | inr there ↦
              let ne : i ≢ j = λ t. ground arith in
              let (q, bound, leads) =
                v.listed j g (sym (swap_out_ne i f last s.poll_fds within j below ne) ∙ h) in
              let apart = other_entry j q g bound leads ne in
              let kept : q_last ≢ q = λ (t : q_last ≡ q). ground arith in
              (q, ground arith, ground arith)
        ]

    pub swapped-IsValid : IsValid swapped
    swapped-IsValid = record { registered = swapped-registered; listed = swapped-listed }
