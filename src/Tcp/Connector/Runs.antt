-- ===== src/Tcp/Connector/Runs.antt =====
-- The descriptors and the delay of a connector in every run of its methods.
use reactor_network_lib.Tcp.Connector.{create, Connector, is_connecting, k_init_retry_delay_ms}
use reactor_network_lib.Tcp.Connector.Descriptors.{
  Step, IsValid, tally, opening, disposal, held, queued, done,
}
use reactor_network_lib.Tcp.Connector.Preserve.{Step-IsValid}
use reactor_network_lib.Common.{refl, ℕ, ◌≡◌, ◌+◌, false, none, some, arith}

pub data Reaches : Connector → Connector → Type 0 where
  here : (c : Connector) → Reaches c c
  next : {c c' c'' : Connector} → Reaches c c' → Step c' c'' → Reaches c c''

create-IsValid : IsValid create
unfolding create
create-IsValid = record { delay = refl; balanced = λ x. refl; resetting = refl }

Reaches-IsValid : {c c' : Connector} → Reaches c c' → IsValid c → IsValid c'
Reaches-IsValid (here c) v = v
Reaches-IsValid (next steps step) v = Step-IsValid step (Reaches-IsValid steps v)

-- In every run of a connector's methods that the loop and the owner can make, each descriptor has been
-- closed or handed over as often as it was opened, but for the one that the connector holds while it
-- connects: none leaks, and none is closed twice.
pub no_leak :
    (c : Connector)
    → Reaches create c
    → (x : ℕ) → tally (opening x) c.effects ≡ tally (disposal x) c.effects + held x c
no_leak c steps = (Reaches-IsValid steps create-IsValid).balanced

-- In every such run, a connector that is not connecting has a channel exactly while one reset more has
-- been queued than the loop has run, and otherwise as many have been queued as run.
pub channel_reset :
    (c : Connector)
    → Reaches create c
    → is_connecting c.state ≡ false
    → tally queued c.effects ≡ tally done c.effects + (elim c.channel [ none ↦ 0 | some fd ↦ 1 ])
channel_reset c steps idle = ground (arith, (Reaches-IsValid steps create-IsValid).resetting)

-- The delay before a retry never grows: in every such run it is still the first one, 500 milliseconds,
-- whatever the number of retries.
pub delay_never_grows :
    (c : Connector) → Reaches create c → c.retry_delay_ms ≡ k_init_retry_delay_ms
delay_never_grows c steps = (Reaches-IsValid steps create-IsValid).delay
