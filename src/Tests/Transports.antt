-- ===== src/Tests/Transports.antt =====
-- Instances for phase0/transport.py.
use census_konantgit_sys_p2p.Prelude.{[], ◌≡◌, true, false, String, refl}
use census_konantgit_sys_p2p.Dict.{get_or}
use census_konantgit_sys_p2p.Phase0.Transport.{Transport, Bus, subscribe, stop}
use census_konantgit_sys_p2p.Phase0.Transport.Callbacks.{has_callback}
use census_konantgit_sys_p2p.Phase0.Transport.Stopped.{
  stay, onward, subscribed, other_subscribed, stop-no_callback,
}

abbrev node : String → Transport
node id = record {
  node_id = id;
  subscribed_topics = [];
  running = true;
  use_tls = false;
  relay = false;
  tcp_connections = [];
  tls_sessions = [];
  written = [];
}

abbrev no_bus : Bus
no_bus = record { topics = []; delivered = [] }

abbrev joined : Transport
joined = (subscribe "news" 1 (node "a") no_bus).0

abbrev shared_bus : Bus
shared_bus = (subscribe "news" 2 (node "b") (subscribe "news" 1 (node "a") no_bus).1).1

stop-no_callback_example :
    has_callback "a" (get_or "news" [] (stop joined shared_bus).1.topics) ≡ false
unfolding subscribe
stop-no_callback_example =
    stop-no_callback (node "a") joined shared_bus "news" refl
      (onward (onward stay (subscribed "news" 1)) (other_subscribed (node "b") "news" 2 refl))
