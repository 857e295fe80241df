-- ===== src/Poller/Lawful.antt =====
-- A poller over poll(2) is a lawful poller.
use reactor_network_lib.Poller.{Poller, update_channel, remove_channel, rewrite, ℕ, take_out, fd_of}
use reactor_network_lib.Poller.Inv.{
  IsValid, update_new-IsValid, update_registered-IsValid, added, update_at,
}
use reactor_network_lib.Poller.Remove.{remove_channel_lem}
use reactor_network_lib.PollerInterface.{PollerInterface, IsLawful, Keeps, IsFresh}
use reactor_network_lib.Channel.{Channel, Events, k_none_event, set_index, is_none_event}
use reactor_network_lib.Channel.Store.{store_at, erase}
use reactor_network_lib.Common.{
  ℕ, ◌≡◌, arith, ok, true, some, refl, Option-cases, set, get_elem?, length, ap, ◌-◌, inl, inr,
  get_elem?-set_self, lt_of_get_elem?,
}

abbrev pub set_events : ℕ → Events → Poller → Poller
set_events p e s = record s { store = store_at s.store p (record (s.store p) { events = e }) }

abbrev pub poller : PollerInterface
poller = record {
  State = Poller;
  store = λ s. s.store;
  channels = λ s. s.channels;
  set_events = set_events;
  update_channel = update_channel;
  remove_channel = remove_channel;
}

pub set_events-IsValid : (p : ℕ) (e : Events) (s : Poller) → IsValid s → IsValid (set_events p e s)
set_events-IsValid p e s v = record {
  registered = λ fd q h.
      let (at, i, leads, f, found, is) = v.registered fd q h in
      (ground arith, i, ground arith, f, found, is);
  listed = λ i f h. let (q, bound, leads) = v.listed i f h in (q, bound, ground arith);
}

pub added-Keeps : (p : ℕ) (s : Poller) (v : IsValid s) → Keeps poller p s (added p s v)
unfolding set_index
added-Keeps p s v = record { fds = λ q. ground arith; fresh = λ q apart h. ground arith }

-- The channel whose index changes is one that is registered.
remove_keeps_fresh :
    (p : ℕ) (s s' : Poller)
    → IsValid s
    → remove_channel p s ≡ ok s'
    → (q : ℕ) → IsFresh (s.store q)
    → IsFresh (s'.store q)
unfolding remove_channel set_index take_out
remove_keeps_fresh p s s' v ran q h =
    elim (Option-cases (get_elem? s.poll_fds (length s.poll_fds - 1))) [
      | inl empty ↦ ground arith
      | inr (last, at_end) ↦ elim (Option-cases (s.channels (fd_of last.fd))) [
        | inl unbound ↦ ground arith
        | inr (q_last, bound) ↦
            let (e, j, leads, g, held, of) = v.registered (fd_of last.fd) q_last bound in
            ground (arith, leads)
      ]
    ]

remove-Keeps :
    (p : ℕ) (s s' : Poller) → IsValid s → remove_channel p s ≡ ok s' → Keeps poller p s s'
unfolding remove_channel set_index
remove-Keeps p s s' v ran = record {
  fds = λ q. ground arith;
  fresh = λ q apart h. remove_keeps_fresh p s s' v ran q h;
}

idle_of_events : (c : Channel) → c.events ≡ k_none_event → is_none_event c ≡ true
unfolding is_none_event
idle_of_events c e = ground arith

pub retire_lem :
    (p : ℕ) (s : Poller)
    → IsValid s
    → s.channels (s.store p).fd ≡ some p
    → (s.store p).events ≡ k_none_event
    → (s' : Poller) × (s'' : Poller) × (update_channel p s ≡ ok s')
      × (remove_channel p s' ≡ ok s'')
      × IsValid s''
      × Keeps poller p s s''
      × ((fd : ℕ) → s''.channels fd ≡ erase s.channels (s.store p).fd fd)
retire_lem p s v bound off =
    let (at, i, leads, f, found, is) = v.registered (s.store p).fd p bound in
    let (updated, valid) = update_at p s v i f bound leads found is in
    let g = rewrite (s.store p) f in
    let left : Poller = record s { poll_fds = set s.poll_fds i g } in
    let idle = idle_of_events (s.store p) off in
    let here = get_elem?-set_self s.poll_fds i g (lt_of_get_elem? s.poll_fds i found) in
    let (s'', removed, valid', map, _) =
      remove_channel_lem p left i g valid bound leads here idle (rw idle refl) refl in
    let keeps = remove-Keeps p left s'' valid removed in
    (
      left,
      s'',
      updated,
      removed,
      valid',
      record { fds = keeps.fds; fresh = keeps.fresh },
      λ fd. ap (λ m. m fd) map,
    )

unfoldable pub poller-IsLawful : IsLawful poller
poller-IsLawful = record {
  IsValid = IsValid;
  set_events-IsValid = set_events-IsValid;
  store-set_events = λ p e s q. refl;
  channels-set_events = λ p e s fd. refl;
  update_new = λ p s v fresh free.
      let (ran, valid) = update_new-IsValid p s v (rw fresh refl, free) in
      (added p s v, ran, valid, added-Keeps p s v, λ fd. refl);
  update_bound = λ p s v bound.
      let (i, f, found, ran, valid) = update_registered-IsValid p s v bound in
      (_, ran, valid, record { fds = λ q. refl; fresh = λ q apart h. h }, λ fd. refl);
  retire = retire_lem;
}
