-- ===== src/Epoller/Lawful.antt =====
-- An epoller is a lawful poller.
use reactor_network_lib.Epoller.{Epoller, update_channel, remove_channel, update, set_index_at, ℕ}
use reactor_network_lib.Epoller.Protocol.{IsValid, update_channel-IsValid, watch}
use reactor_network_lib.Epoller.Removal.{remove_channel-IsValid}
use reactor_network_lib.PollerInterface.{PollerInterface, IsLawful, Keeps, IsFresh}
use reactor_network_lib.Channel.{Channel, Events, k_none_event, set_index, is_none_event}
use reactor_network_lib.Channel.Store.{store_at, bind, erase}
use reactor_network_lib.Common.{ℕ, Bool, ◌≡◌, arith, ok, some, ◌∙◌, true, inr, inl, ap, refl}

abbrev pub set_events : ℕ → Events → Epoller → Epoller
set_events p e s = record s { store = store_at s.store p (record (s.store p) { events = e }) }

abbrev pub epoller : PollerInterface
epoller = record {
  State = Epoller;
  store = λ s. s.store;
  channels = λ s. s.channels;
  set_events = set_events;
  update_channel = update_channel;
  remove_channel = remove_channel;
}

pub set_events-IsValid :
    (p : ℕ) (e : Events) (s : Epoller) (w : ℕ → Bool) → IsValid s w → IsValid (set_events p e s) w
set_events-IsValid p e s w v = record {
  accepted = v.accepted;
  bound = λ fd q h. let old = v.bound fd q h in ground arith;
  free = v.free;
}

pub update-Keeps : (p : ℕ) (s s' : Epoller) → update_channel p s ≡ ok s' → Keeps epoller p s s'
unfolding update_channel update set_index_at set_index
update-Keeps p s s' ran = record { fds = λ q. ground arith; fresh = λ q apart h. ground arith }

remove-Keeps : (p : ℕ) (s s' : Epoller) → remove_channel p s ≡ ok s' → Keeps epoller p s s'
unfolding remove_channel update set_index_at set_index
remove-Keeps p s s' ran = record { fds = λ q. ground arith; fresh = λ q apart h. ground arith }

pub update_new_map :
    (p : ℕ) (s s' : Epoller)
    → update_channel p s ≡ ok s'
    → IsFresh (s.store p)
    → (fd : ℕ) → s'.channels fd ≡ bind s.channels (s.store p).fd p fd
unfolding update_channel update set_index_at set_index
update_new_map p s s' ran fresh fd = ground arith

pub update_bound_map :
    (p : ℕ) (s s' : Epoller) (w : ℕ → Bool)
    → IsValid s w
    → s.channels (s.store p).fd ≡ some p
    → update_channel p s ≡ ok s'
    → (fd : ℕ) → s'.channels fd ≡ s.channels fd
unfolding update_channel update set_index_at set_index
update_bound_map p s s' w v bound ran fd =
    let (e, state) = v.bound (s.store p).fd p bound in ground arith

remove_map :
    (p : ℕ) (s s' : Epoller)
    → remove_channel p s ≡ ok s'
    → (fd : ℕ) → s'.channels fd ≡ erase s.channels (s.store p).fd fd
unfolding remove_channel update set_index_at set_index
remove_map p s s' ran fd = ground arith

update_events :
    (p : ℕ) (s s' : Epoller) → update_channel p s ≡ ok s' → (s'.store p).events ≡ (s.store p).events
unfolding update_channel update set_index_at set_index
update_events p s s' ran = ground arith

Keeps-trans :
    (p : ℕ) (s t u : Epoller) → Keeps epoller p s t → Keeps epoller p t u → Keeps epoller p s u
Keeps-trans p s t u a b = record {
  fds = λ q. b.fds q ∙ a.fds q;
  fresh = λ q apart h. b.fresh q apart (a.fresh q apart h);
}

idle_of_events : (c : Channel) → c.events ≡ k_none_event → is_none_event c ≡ true
unfolding is_none_event
idle_of_events c e = ground arith

pub retire_lem :
    (p : ℕ) (s : Epoller) (w : ℕ → Bool)
    → IsValid s w
    → s.channels (s.store p).fd ≡ some p
    → (s.store p).events ≡ k_none_event
    → (s' : Epoller) × (s'' : Epoller) × (update_channel p s ≡ ok s')
      × (remove_channel p s' ≡ ok s'')
      × ((w' : ℕ → Bool) × IsValid s'' w')
      × Keeps epoller p s s''
      × ((fd : ℕ) → s''.channels fd ≡ erase s.channels (s.store p).fd fd)
retire_lem p s w v bound off =
    let (s', c, updated, _, valid, still) = update_channel-IsValid p s w v (inr bound) in
    let keeps = update-Keeps p s s' updated in
    let map = update_bound_map p s s' w v bound updated in
    let at : s'.channels (s'.store p).fd ≡ some p = ap s'.channels (keeps.fds p) ∙ still in
    let idle = idle_of_events (s'.store p) (update_events p s s' updated ∙ off) in
    let (s'', w', removed, valid', _, _, _) =
      remove_channel-IsValid p s' (watch w c) valid at idle in
    (
      s',
      s'',
      updated,
      removed,
      (w', valid'),
      Keeps-trans p s s' s'' keeps (remove-Keeps p s' s'' removed),
      λ fd. ground (arith, remove_map p s' s'' removed fd, map fd, keeps.fds p),
    )

-- The kernel's view is part of the invariant, so that no call of `epoll_ctl` is refused either.
unfoldable pub epoller-IsLawful : IsLawful epoller
epoller-IsLawful = record {
  IsValid = λ s. (w : ℕ → Bool) × IsValid s w;
  set_events-IsValid = λ p e s (w, v). (w, set_events-IsValid p e s w v);
  store-set_events = λ p e s q. refl;
  channels-set_events = λ p e s fd. refl;
  update_new = λ p s (w, v) fresh free.
      let (s', c, ran, _, valid, _) = update_channel-IsValid p s w v (inl (fresh, free)) in
      (s', ran, (watch w c, valid), update-Keeps p s s' ran, update_new_map p s s' ran fresh);
  update_bound = λ p s (w, v) bound.
      let (s', c, ran, _, valid, _) = update_channel-IsValid p s w v (inr bound) in
      (s', ran, (watch w c, valid), update-Keeps p s s' ran, update_bound_map p s s' w v bound ran);
  retire = λ p s (w, v) bound off. retire_lem p s w v bound off;
}
