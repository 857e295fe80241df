-- ===== src/Epoller/Removal.antt =====
-- `remove_channel`: the channel is forgotten, and the kernel stops watching its descriptor.
use reactor_network_lib.Common.{
  ℕ, Bool, ◌≡◌, some, List, true, ok, false, ◌≢◌, none, arith, inl, ℕ_discrete, ◌++◌, ◌∷◌, [], inr,
  refl,
}
use reactor_network_lib.Epoller.{Epoller, set_index, remove_channel, Ctl, k_new, erase, ctl_del}
use reactor_network_lib.Epoller.Protocol.{IsValid, Watches, indexed, ctl, watch, call}
use reactor_network_lib.Channel.{set_index, is_none_event}
use reactor_network_lib.Channel.Store.{erase}

-- What is left without the channel `p` keeps the invariant, if its descriptor is no longer watched.
module _ (p : ℕ) (s : Epoller) (w : ℕ → Bool) (v : IsValid s w)
    (reg : s.channels (s.store p).fd ≡ some p) where
  forget-IsValid :
      (calls : List Ctl) (w' : ℕ → Bool)
      → Watches calls w'
      → w' (s.store p).fd ≡ false
      → ((fd : ℕ) → (s.store p).fd ≢ fd → w' fd ≡ w fd)
      → IsValid
          (record {
            store = indexed p k_new s;
            channels = erase s.channels (s.store p).fd;
            event_list_size = s.event_list_size;
            calls = calls;
          })
          w'
  unfolding set_index
  forget-IsValid calls w' accepted off rest = record {
    accepted = accepted;
    bound = λ fd q h.
        let other : (s.store p).fd ≢ fd = λ t. ground arith in
        let (e, state) = v.bound fd q (ground arith) in
        let apart : p ≢ q = λ (t : p ≡ q). ground arith in ground (arith, rest fd other);
    free = λ fd h. elim (ℕ_discrete (s.store p).fd fd) [
      | yes eq ↦ ground (arith, eq, off)
      | no other ↦ ground (arith, rest fd other, v.free fd)
    ];
  }

  -- On a valid epoller, a bound channel that waits for nothing is removed without a failed
  -- assertion and with no call that the kernel refuses. The epoller stays valid, the descriptor is
  -- then unbound and not watched, and the channel may be added anew.
  pub remove_channel-IsValid :
      is_none_event (s.store p) ≡ true
      → (s' : Epoller) × (w' : ℕ → Bool) × (remove_channel p s ≡ ok s')
        × IsValid s' w'
        × (w' (s.store p).fd ≡ false)
        × (s'.channels (s.store p).fd ≡ none)
        × ((s'.store p).index ≡ k_new)
  unfolding remove_channel set_index
  remove_channel-IsValid idle =
      let (e, state) = v.bound (s.store p).fd p reg in
      let left : List Ctl → Epoller = λ calls. record {
        store = indexed p k_new s;
        channels = erase s.channels (s.store p).fd;
        event_list_size = s.event_list_size;
        calls = calls;
      } in
      elim state [
        | inl (added, on) ↦
            let c = ctl ctl_del p s in
            (
              left (s.calls ++ c ∷ []),
              watch w c,
              ground arith,
              forget-IsValid (s.calls ++ c ∷ []) (watch w c) (call c v.accepted on) (ground arith)
                  (λ fd ne. ground arith),
              ground arith,
              ground arith,
              ground arith,
            )
        | inr (deleted, off) ↦ (
          left s.calls,
          w,
          ground arith,
          forget-IsValid s.calls w v.accepted off (λ fd ne. refl),
          off,
          ground arith,
          ground arith,
        )
      ]
