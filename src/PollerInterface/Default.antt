-- ===== src/PollerInterface/Default.antt =====
-- poller/DefaultPoller.hpp: which poller a loop is given, by whether I_USE_POLL is set.
use reactor_network_lib.Poller.Lawful.{poller, poller-IsLawful}
use reactor_network_lib.Epoller.Lawful.{epoller, epoller-IsLawful}
use reactor_network_lib.PollerInterface.{PollerInterface, IsLawful}
use reactor_network_lib.Common.{Bool, true, false}

pub new_default_poller : Bool → PollerInterface
new_default_poller true = poller
new_default_poller false = epoller

-- Whichever it is, it does what a loop relies on.
pub new_default_poller-IsLawful : (i_use_poll : Bool) → IsLawful (new_default_poller i_use_poll)
unfolding new_default_poller
new_default_poller-IsLawful true = poller-IsLawful
new_default_poller-IsLawful false = epoller-IsLawful
