-- ===== src/PollerInterface.antt =====
-- poller/PollerInterface.hpp: what an event loop asks of its poller, and what it relies on. The loop and
-- the owners of channels reach a poller through `update_channel` and `remove_channel` alone.
pub mod Clients
pub mod Both
pub mod Default
pub mod Tests
use reactor_network_lib.Channel.{Channel, Events, k_none_event}
use reactor_network_lib.Channel.Store.{Store, ChannelMap, store_at, bind, erase}
use reactor_network_lib.Common.{ℕ, Outcome, ◌≡◌, negsuc, ◌≢◌, some, none, ok}

pub record PollerInterface : Type 1 where
  pub State : Type 0
  -- The channels that exist, and those that are registered.
  pub store : State → Store
  pub channels : State → ChannelMap
  -- An owner sets the events of its channel.
  pub set_events : ℕ → Events → State → State
  pub update_channel : ℕ → State → Outcome State
  pub remove_channel : ℕ → State → Outcome State

-- A channel that was never handed to a poller.
abbrev pub IsFresh : Channel → Type 0
IsFresh c = c.index ≡ negsuc 0

module _ (P : PollerInterface) where
  -- A change on behalf of the channel `p` leaves every descriptor, and the channels never handed over.
  pub record Keeps (p : ℕ) (s s' : P.State) : Type 0 where
    pub fds : (q : ℕ) → (P.store s' q).fd ≡ (P.store s q).fd
    pub fresh : (q : ℕ) → p ≢ q → IsFresh (P.store s q) → IsFresh (P.store s' q)

  abbrev pub Bound : ℕ → P.State → Type 0
  Bound p s = P.channels s (P.store s p).fd ≡ some p

  pub record IsLawful : Type 1 where
    pub IsValid : P.State → Type 0
    pub set_events-IsValid :
        (p : ℕ) (e : Events) (s : P.State) → IsValid s → IsValid (P.set_events p e s)
    pub store-set_events :
        (p : ℕ) (e : Events) (s : P.State) (q : ℕ)
        → P.store (P.set_events p e s) q
          ≡ store_at (P.store s) p (record (P.store s p) { events = e }) q
    pub channels-set_events :
        (p : ℕ) (e : Events) (s : P.State) (fd : ℕ)
        → P.channels (P.set_events p e s) fd ≡ P.channels s fd
    pub update_new :
        (p : ℕ) (s : P.State)
        → IsValid s
        → IsFresh (P.store s p)
        → P.channels s (P.store s p).fd ≡ none
        → (s' : P.State) × (P.update_channel p s ≡ ok s')
          × IsValid s'
          × Keeps p s s'
          × ((fd : ℕ) → P.channels s' fd ≡ bind (P.channels s) (P.store s p).fd p fd)
    pub update_bound :
        (p : ℕ) (s : P.State)
        → IsValid s
        → Bound p s
        → (s' : P.State) × (P.update_channel p s ≡ ok s')
          × IsValid s'
          × Keeps p s s'
          × ((fd : ℕ) → P.channels s' fd ≡ P.channels s fd)
    -- A channel is removed after an update without events.
    pub retire :
        (p : ℕ) (s : P.State)
        → IsValid s
        → Bound p s
        → (P.store s p).events ≡ k_none_event
        → (s' : P.State) × (s'' : P.State) × (P.update_channel p s ≡ ok s')
          × (P.remove_channel p s' ≡ ok s'')
          × IsValid s''
          × Keeps p s s''
          × ((fd : ℕ) → P.channels s'' fd ≡ erase (P.channels s) (P.store s p).fd fd)
