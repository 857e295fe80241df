-- ===== src/Channel/Store.antt =====
-- The channels that exist, by their pointers: objects that their owners and a poller share.
-- A pointer is a number, and every pointer that is followed here leads to a channel: the program
-- removes a channel from its poller before it deletes it.
use reactor_network_lib.Common.{ℕ, Option, if◌then◌else◌, ◌==◌, Bool, some, none, true, false}
use reactor_network_lib.Channel.{Channel, Bool, true, false}

abbrev pub Store : Type 0
Store = ℕ → Channel

abbrev pub store_at : Store → ℕ → Channel → Store
store_at s p c q = if p == q then c else s q

-- `std::map<int, Channel*>`: the pointer for a descriptor.
abbrev pub ChannelMap : Type 0
ChannelMap = ℕ → Option ℕ

abbrev pub bind : ChannelMap → ℕ → ℕ → ChannelMap
bind m fd p k = if fd == k then some p else m k

abbrev pub erase : ChannelMap → ℕ → ChannelMap
erase m fd k = if fd == k then none else m k

-- `find(fd) == end()`, and `find(fd) != end() && [fd] == p`.
abbrev pub is_absent : Option ℕ → Bool
is_absent none = true
is_absent (some p) = false

abbrev pub is_bound_to : Option ℕ → ℕ → Bool
is_bound_to none p = false
is_bound_to (some q) p = q == p
