-- ===== src/Tcp/Connector/Text.antt =====
-- The name of a state, as `to_string` of tcp/Connector.cpp prints it.
use reactor_network_lib.Tcp.Connector.{State, disconnected, connecting_state, connected, List}
use reactor_network_lib.Common.{List, ◌≡◌, ℕ, arith, refl, ◌∷◌, []}

pub to_string : State → List ℕ
-- Disconnected
to_string disconnected = 68 ∷ 105 ∷ 115 ∷ 99 ∷ 111 ∷ 110 ∷ 110 ∷ 101 ∷ 99 ∷ 116 ∷ 101 ∷ 100 ∷ []
-- Connected
to_string connected = 67 ∷ 111 ∷ 110 ∷ 110 ∷ 101 ∷ 99 ∷ 116 ∷ 101 ∷ 100 ∷ []
-- Connecting
to_string connecting_state = 67 ∷ 111 ∷ 110 ∷ 110 ∷ 101 ∷ 99 ∷ 116 ∷ 105 ∷ 110 ∷ 103 ∷ []

pub to_string-injective : (s t : State) → to_string s ≡ to_string t → s ≡ t
unfolding to_string
to_string-injective disconnected disconnected h = refl
to_string-injective disconnected connected h = absurd (ground arith)
to_string-injective disconnected connecting_state h = absurd (ground arith)
to_string-injective connected disconnected h = absurd (ground arith)
to_string-injective connected connected h = refl
to_string-injective connected connecting_state h = absurd (ground arith)
to_string-injective connecting_state disconnected h = absurd (ground arith)
to_string-injective connecting_state connected h = absurd (ground arith)
to_string-injective connecting_state connecting_state h = refl
