-- ===== src/Tests/Tables.antt =====
-- The tables of the listener and of the endpoint (listener.cpp, endpoint.hpp, endpoint.cpp).
use wshttp.Prelude.{◌≡◌, refl, true, false, none, some, List, [], ◌∷◌}
use wshttp.Prelude.Outcome.{throw, runtime_error, null_access}
use wshttp.Maps.{find, nat_key, string_key}
use wshttp.Address.Ip.{v4, IpAddress, Sockaddr, inet, of_port}
use wshttp.Address.Ip.Keys.{ip_key}
use wshttp.Address.Ip.Coherent.{AreCoherent}
use wshttp.Session.{Session, listener_close_session, new_session}
use wshttp.Session.Setup.{Net}
use wshttp.Stream.{inbound}
use wshttp.Listener.{Listener, new_listener, Binding, init_internals}
use wshttp.Listener.Sessions.{Move, accepted, posted}
use wshttp.Node.{Socket}
use wshttp.Endpoint.{Endpoint, listen, shutdown_endpoint}
use wshttp.Endpoint.Tables.{shutdown_endpoint-listen}
use wshttp.Tests.Samples.{net_at}

abbrev name : Sockaddr
name = inet 0x0100007f 0xbb01

abbrev net : Net
net = net_at (some name)

abbrev peer : IpAddress
peer = record { ip = v4 (record { addr = 0x7f000001 }); port = 9000; is_v4 = true }

abbrev session : Session
session = new_session inbound none (record { local = of_port 443; remote = peer }) ""

-- A listener with a session.
abbrev busy : Listener
busy = record {
  local = of_port 443;
  sin_port = none;
  fd = none;
  error_cb_set = true;
  sessions = (peer, some session) ∷ [];
}

abbrev some_moves : List Move
some_moves = accepted net name ∷ accepted net name ∷ posted (listener_close_session peer) ∷ []

session-AreCoherent : AreCoherent session.ends
unfolding new_session of_port
session-AreCoherent = (refl, refl)

abbrev failing : Binding
failing = record { big_endian = false; bound = none; sock_name = none }

abbrev fresh : Endpoint
fresh = record { client_id = 1; ctx = none; listeners = []; nodes = []; close_immediately = false }

abbrev socket : Socket
socket = record { big_endian = false; opened = some 6; non_blocking = true; bind_done = true }

free : find 443 fresh.listeners ≡ none
unfolding find
free = refl

fails : init_internals failing (new_listener 443) ≡ throw runtime_error
unfolding init_internals
fails = refl

shutdown_endpoint-listen_example :
    shutdown_endpoint (listen failing 443 fresh).0 ≡ throw null_access
shutdown_endpoint-listen_example =
    shutdown_endpoint-listen failing 443 fresh runtime_error free fails
