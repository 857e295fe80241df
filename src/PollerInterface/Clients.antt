-- ===== src/PollerInterface/Clients.antt =====
-- The owners of channels against any lawful poller: the poller is a map from descriptors to channels.
use reactor_network_lib.PollerInterface.{PollerInterface, IsLawful, IsFresh, ℕ, Outcome}
use reactor_network_lib.Channel.{Events, k_none_event}
use reactor_network_lib.Channel.Store.{ChannelMap, bind, erase}
use reactor_network_lib.Common.{
  ℕ, Outcome, List, ◌∷◌, Bool, ok, ◌>>=◌, if◌then◌else◌, arith, [], ◌≡◌, ◌==◌, false, ◌∙◌, true,
  none, ◌≢◌, some, ap, refl,
}

-- An owner registers a new channel, changes the events of a registered one, or ends with it: all
-- events off, then removed.
pub data Call : Type 0 where
  registers : ℕ → Events → Call
  changes : ℕ → Events → Call
  retires : ℕ → Call

-- The calls on the map that a poller promises to be; `fds` are the descriptors of the channels.
abbrev pub map_call : (ℕ → ℕ) → Call → ChannelMap → ChannelMap
map_call fds (registers p e) m = bind m (fds p) p
map_call fds (changes p e) m = m
map_call fds (retires p) m = erase m (fds p)

abbrev pub map_calls : (ℕ → ℕ) → List Call → ChannelMap → ChannelMap
map_calls fds [] m = m
map_calls fds (c ∷ cs) m = map_calls fds cs (map_call fds c m)

-- Whose channel has been handed over by a call.
abbrev pub use_call : Call → (ℕ → Bool) → ℕ → Bool
use_call (registers p e) used q = if p == q then true else used q
use_call (changes p e) used q = used q
use_call (retires p) used q = used q

-- A channel is registered once, for a descriptor that is free, and then changed and retired.
abbrev pub Legal : (ℕ → ℕ) → List Call → ChannelMap → (ℕ → Bool) → Type 0
Legal fds [] m used = Unit {0}
Legal fds (registers p e ∷ cs) m used =
    ((used p ≡ false) × (m (fds p) ≡ none))
    × Legal fds cs (map_call fds (registers p e) m) (use_call (registers p e) used)
Legal fds (changes p e ∷ cs) m used = ((used p ≡ true) × (m (fds p) ≡ some p)) × Legal fds cs m used
Legal fds (retires p ∷ cs) m used =
    ((used p ≡ true) × (m (fds p) ≡ some p)) × Legal fds cs (map_call fds (retires p) m) used

used_apart : (used : ℕ → Bool) (p q : ℕ) → used p ≡ true → used q ≡ false → p ≢ q
used_apart used p q old new e = ground arith

module _ (P : PollerInterface) (L : IsLawful P) where
  unfoldable pub call : Call → P.State → Outcome P.State
  call (registers p e) s = P.update_channel p (P.set_events p e s)
  call (changes p e) s = P.update_channel p (P.set_events p e s)
  call (retires p) s = do
    s' ← P.update_channel p (P.set_events p k_none_event s)
    P.remove_channel p s'

  unfoldable pub calls : List Call → P.State → Outcome P.State
  calls [] s = ok s
  calls (c ∷ cs) s = do s' ← call c s; calls cs s'

  -- The poller's map is `m`, and the channels not yet used are fresh.
  pub record Shows (fds : ℕ → ℕ) (m : ChannelMap) (used : ℕ → Bool) (s : P.State) : Type 0 where
    pub valid : L.IsValid s
    pub same_fds : (q : ℕ) → (P.store s q).fd ≡ fds q
    pub same_map : (fd : ℕ) → P.channels s fd ≡ m fd
    pub unused : (q : ℕ) → used q ≡ false → IsFresh (P.store s q)

  Shows-set_events :
      (fds : ℕ → ℕ) (m : ChannelMap) (used : ℕ → Bool) (s : P.State) (p : ℕ) (e : Events)
      → Shows fds m used s
      → Shows fds m used (P.set_events p e s)
  Shows-set_events fds m used s p e v = record {
    valid = L.set_events-IsValid p e s v.valid;
    same_fds = λ q. ground (arith, L.store-set_events p e s q, v.same_fds q);
    same_map = λ fd. L.channels-set_events p e s fd ∙ v.same_map fd;
    unused = λ q h. ground (arith, L.store-set_events p e s q, v.unused q);
  }

  pub call_lem :
      (fds : ℕ → ℕ) (c : Call) (cs : List Call) (m : ChannelMap) (used : ℕ → Bool) (s : P.State)
      → Shows fds m used s
      → Legal fds (c ∷ cs) m used
      → (s' : P.State) × (call c s ≡ ok s')
        × Shows fds (map_call fds c m) (use_call c used) s'
        × Legal fds cs (map_call fds c m) (use_call c used)
  unfolding call
  call_lem fds (registers p e) cs m used s v ((unused, free), rest) =
      let u = Shows-set_events fds m used s p e v in
      let at = u.same_fds p in
      let (s', ran, valid, keeps, map) =
        L.update_new p (P.set_events p e s) u.valid (u.unused p unused)
          (ap (P.channels (P.set_events p e s)) at ∙ u.same_map (fds p) ∙ free) in
      (
        s',
        ran,
        record {
          valid = valid;
          same_fds = λ q. keeps.fds q ∙ u.same_fds q;
          same_map = λ fd. ground (arith, map fd, at, u.same_map fd);
          unused = λ q h.
              let apart : p ≢ q = λ (t : p ≡ q). ground arith in
              keeps.fresh q apart (u.unused q (ground arith));
        },
        rest,
      )
  call_lem fds (changes p e) cs m used s v ((old, bound), rest) =
      let u = Shows-set_events fds m used s p e v in
      let at = u.same_fds p in
      let (s', ran, valid, keeps, map) =
        L.update_bound p (P.set_events p e s) u.valid
          (ap (P.channels (P.set_events p e s)) at ∙ u.same_map (fds p) ∙ bound) in
      (
        s',
        ran,
        record {
          valid = valid;
          same_fds = λ q. keeps.fds q ∙ u.same_fds q;
          same_map = λ fd. map fd ∙ u.same_map fd;
          unused = λ q h.
              let apart : p ≢ q = λ (t : p ≡ q). used_apart used p q old h t in
              keeps.fresh q apart (u.unused q h);
        },
        rest,
      )
  call_lem fds (retires p) cs m used s v ((old, bound), rest) =
      let u = Shows-set_events fds m used s p k_none_event v in
      let at = u.same_fds p in
      let (s', s'', updated, ran, valid, keeps, map) =
        L.retire p (P.set_events p k_none_event s) u.valid
          (ap (P.channels (P.set_events p k_none_event s)) at ∙ u.same_map (fds p) ∙ bound)
          (ground (arith, L.store-set_events p k_none_event s p)) in
      (
        s'',
        rw updated ran,
        record {
          valid = valid;
          same_fds = λ q. keeps.fds q ∙ u.same_fds q;
          same_map = λ fd. ground (arith, map fd, at, u.same_map fd);
          unused = λ q h.
              let apart : p ≢ q = λ (t : p ≡ q). used_apart used p q old h t in
              keeps.fresh q apart (u.unused q h);
        },
        rest,
      )

  -- Whatever its owners do in the order that the interface asks for, a lawful poller fails no
  -- assertion, and what it holds is the map from descriptors to channels that the calls describe.
  pub calls_lem :
      (fds : ℕ → ℕ) (cs : List Call) (m : ChannelMap) (used : ℕ → Bool) (s : P.State)
      → Shows fds m used s
      → Legal fds cs m used
      → (s' : P.State) × (calls cs s ≡ ok s')
        × L.IsValid s'
        × ((fd : ℕ) → P.channels s' fd ≡ map_calls fds cs m fd)
  unfolding calls
  calls_lem fds [] m used s v legal = (s, refl, v.valid, v.same_map)
  calls_lem fds (c ∷ cs) m used s v legal =
      let (s', ran, shows, rest) = call_lem fds c cs m used s v legal in
      let (s'', runs, valid, map) =
        calls_lem fds cs (map_call fds c m) (use_call c used) s' shows rest in
      (s'', rw ran runs, valid, map)
