-- ===== src/Tcp/Connection/Text.antt =====
-- The name of a state, as `to_string` of tcp/TcpConnection.cpp prints it.
use reactor_network_lib.Tcp.Connection.{
  State, connecting, connected, disconnected, disconnecting, List,
}
use reactor_network_lib.Common.{List, ◌≡◌, ℕ, arith, refl, ◌∷◌, []}

pub to_string : State → List ℕ
-- Connected
to_string connected = 67 ∷ 111 ∷ 110 ∷ 110 ∷ 101 ∷ 99 ∷ 116 ∷ 101 ∷ 100 ∷ []
-- Connecting
to_string connecting = 67 ∷ 111 ∷ 110 ∷ 110 ∷ 101 ∷ 99 ∷ 116 ∷ 105 ∷ 110 ∷ 103 ∷ []
-- Disconnected
to_string disconnected = 68 ∷ 105 ∷ 115 ∷ 99 ∷ 111 ∷ 110 ∷ 110 ∷ 101 ∷ 99 ∷ 116 ∷ 101 ∷ 100 ∷ []
-- Disconnecting
to_string disconnecting =
    68 ∷ 105 ∷ 115 ∷ 99 ∷ 111 ∷ 110 ∷ 110 ∷ 101 ∷ 99 ∷ 116 ∷ 105 ∷ 110 ∷ 103 ∷ []

pub to_string-injective : (s t : State) → to_string s ≡ to_string t → s ≡ t
unfolding to_string
to_string-injective connected connected h = refl
to_string-injective connected connecting h = absurd (ground arith)
to_string-injective connected disconnected h = absurd (ground arith)
to_string-injective connected disconnecting h = absurd (ground arith)
to_string-injective connecting connected h = absurd (ground arith)
to_string-injective connecting connecting h = refl
to_string-injective connecting disconnected h = absurd (ground arith)
to_string-injective connecting disconnecting h = absurd (ground arith)
to_string-injective disconnected connected h = absurd (ground arith)
to_string-injective disconnected connecting h = absurd (ground arith)
to_string-injective disconnected disconnected h = refl
to_string-injective disconnected disconnecting h = absurd (ground arith)
to_string-injective disconnecting connected h = absurd (ground arith)
to_string-injective disconnecting connecting h = absurd (ground arith)
to_string-injective disconnecting disconnected h = absurd (ground arith)
to_string-injective disconnecting disconnecting h = refl
