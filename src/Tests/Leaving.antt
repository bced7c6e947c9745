-- ===== src/Tests/Leaving.antt =====
-- Passes of the loop, and sessions that leave (listener.cpp, session.cpp, loop.cpp).
use wshttp.Prelude.{◌≡◌, ◌⊎◌, refl, true, false, none, some, [], ◌∷◌}
use wshttp.Prelude.Outcome.{ok, throw, dangling_access}
use wshttp.Address.Ip.{IpAddress, v4, equal, three_way, compare_ip}
use wshttp.Address.Ip.Keys.{ip_key}
use wshttp.Server.{Job, Server, pass}
use wshttp.Server.Keeping.{Good, Owed}
use wshttp.Server.Running.{Reach-Good}
use wshttp.Server.Progress.{pass-Owed}
use mathlib.Core.Quot
use wshttp.Listener.Order.{
  Touch, connection, touch, touched, outcome_of, touches_commute, closing as closes_one,
}
use wshttp.Tests.Samples.{env, net_at}
use wshttp.Tests.Running.{
  peer, listener, waiting, waiting_found, connected_server, quiet_server, quiet_server-Good,
  one_connection,
}

connected_server-Good : Good connected_server
connected_server-Good =
    Reach-Good env quiet_server (ok connected_server) quiet_server-Good one_connection

abbrev asked : Job
asked = record { key = peer; alive = true }

-- The session waits to be closed.
abbrev closing_server : Server
closing_server = record (connected_server) { pending = asked ∷ [] }

closing_server-Good : Good closing_server
closing_server-Good = record {
  entries = connected_server-Good.entries;
  owed = (refl, (waiting, waiting_found), tt, tt);
}

-- 127.0.0.1, port 444.
abbrev other_peer : IpAddress
other_peer = record { ip = v4 (record { addr = 0x7f000001 }); port = 444; is_v4 = true }

-- Two sessions, of which one waits to be closed.
abbrev first_order : Server
first_order = record {
  listener = record (listener) {
    sessions = (peer, some waiting) ∷ (other_peer, some waiting) ∷ [];
  };
  pending = asked ∷ [];
}

apart : equal peer other_peer ≡ false
unfolding equal three_way compare_ip
apart = refl

-- The session waits to be closed twice.
abbrev twice_server : Server
twice_server = record (connected_server) { pending = asked ∷ asked ∷ [] }

pass-Owed_example :
    (Owed twice_server.pending twice_server.listener.sessions
      × ((t : Server) × (pass twice_server ≡ ok t)))
    ⊎ ((¬ Owed twice_server.pending twice_server.listener.sessions)
        × (pass twice_server ≡ throw dangling_access))
pass-Owed_example = pass-Owed twice_server connected_server-Good.entries

abbrev closing_other : Touch
closing_other = closes_one other_peer

touches_commute_example :
    (touched (connection (net_at none) peer) (touched closing_other (Quot.mk first_order.listener))
      ≡ touched closing_other
          (touched (connection (net_at none) peer) (Quot.mk first_order.listener)))
    × (outcome_of (connection (net_at none) peer) (touch closing_other first_order.listener)
        ≡ outcome_of (connection (net_at none) peer) first_order.listener)
touches_commute_example =
    touches_commute (connection (net_at none) peer) closing_other first_order.listener apart
