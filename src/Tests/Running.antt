-- ===== src/Tests/Running.antt =====
-- Runs of a server (listener.cpp, session.cpp, loop.cpp).
use wshttp.Prelude.{◌≡◌, refl, subst, true, false, none, some, [], ◌∷◌, arith}
use wshttp.Prelude.Outcome.{Result, ok, throw, null_access}
use wshttp.Maps.{find}
use wshttp.Address.Ip.{
  IpAddress, Sockaddr, inet, v4, of_port, equal, three_way, compare_ip, of_sockaddr,
}
use wshttp.Address.Ip.Keys.{ip_key}
use wshttp.Address.Ip.Coherent.{AreCoherent, IsInet}
use wshttp.Request.Literals.{HasNoZero}
use wshttp.Stream.{inbound}
use wshttp.Session.{Session, new_session}
use wshttp.Session.Setup.{event_cb}
use wshttp.Session.Transfer.{read_cb, write_cb}
use wshttp.Session.Traffic.{refused_session_fails}
use wshttp.Session.Connection.{CallsOnly, finished}
use wshttp.Listener.{Listener}
use wshttp.Encoding.{big_to_host, byteswap_inplace, bswap_16, bswap_32}
use wshttp.Address.Ipv4.{of_in4}
use wshttp.Listener.{accept_cb, create_inbound_session, make_inbound}
use wshttp.Session.Setup.{init_internals_inbound, local_address, new_ssl}
use wshttp.Address.Ip.{to_string}
use wshttp.Maps.{try_emplace, assign}
use wshttp.Server.{LocalInet, outlived, Reach, Server, here, later, accepts, accept, callback}
use wshttp.Server.Keeping.{Good}
use wshttp.Tests.Samples.{env, net_at, idle_driver}

-- 127.0.0.1, port 443, as the system writes it.
abbrev pub name : Sockaddr
name = inet 0x0100007f 0xbb01

abbrev pub peer : IpAddress
peer = record { ip = v4 (record { addr = 0x7f000001 }); port = 443; is_v4 = true }

abbrev pub listener : Listener
listener = record {
  local = of_port 443;
  sin_port = none;
  fd = none;
  error_cb_set = true;
  sessions = [];
}

abbrev pub quiet_server : Server
quiet_server = record { listener = listener; pending = [] }

pub quiet_server-Good : Good quiet_server
unfolding find
quiet_server-Good = record { entries = λ key v e. ground arith; owed = tt }

-- The session of the connection, before its handshake.
abbrev pub waiting : Session
waiting = record (new_session inbound (some 5) (record { local = peer; remote = peer }) "") {
  has_ssl = true;
  has_bev = true;
  enabled = true;
}

abbrev pub connected_server : Server
connected_server = record {
  listener = record (listener) { sessions = (peer, some waiting) ∷ [] };
  pending = [];
}

pub of_name : of_sockaddr false name ≡ ok peer
unfolding of_sockaddr of_in4 big_to_host byteswap_inplace bswap_16 bswap_32
of_name = refl

accepted_server : ok connected_server ≡ accept (net_at (some name)) name quiet_server
unfolding accept accept_cb create_inbound_session make_inbound init_internals_inbound local_address
    new_ssl new_session try_emplace assign find outlived of_sockaddr of_in4 big_to_host
    byteswap_inplace bswap_16 bswap_32 equal three_way compare_ip to_string
accepted_server = refl

is_inet : LocalInet (net_at (some name))
is_inet n e = let same : name ≡ n = ground (arith, e) in subst IsInet same tt

pub waiting_found : find peer connected_server.listener.sessions ≡ some (some waiting)
unfolding find equal three_way compare_ip
waiting_found = refl

waiting_unset : waiting.http2 ≡ none
unfolding new_session
waiting_unset = refl

pub one_connection : Reach env quiet_server (ok connected_server)
one_connection =
    later here (accepts (net_at (some name)) name peer tt is_inet of_name tt accepted_server)

-- The handshake is done, with no protocol.
abbrev handshake : Result Server
handshake = callback peer (event_cb (net_at none) idle_driver waiting true []) connected_server

idle-CallsOnly : CallsOnly env idle_driver
idle-CallsOnly s = (finished, finished)

abbrev session : Session
session = new_session inbound none (record { local = peer; remote = peer }) ""

session-AreCoherent : AreCoherent session.ends
unfolding new_session
session-AreCoherent = (refl, refl)

session_unset : session.http2 ≡ none
unfolding new_session
session_unset = refl

session_empty : session.output ≡ []
unfolding new_session
session_empty = refl

-- The protocol "h2".
h2-HasNoZero : HasNoZero (104 ∷ 50 ∷ [])
h2-HasNoZero = ground arith

refused_session_fails_example :
    (s : Session) × (event_cb (net_at none) idle_driver session true (104 ∷ 50 ∷ []) ≡ ok s)
    × (read_cb idle_driver s ≡ throw null_access)
    × (write_cb idle_driver s ≡ throw null_access)
refused_session_fails_example =
    refused_session_fails (net_at none) idle_driver session 104 (50 ∷ []) h2-HasNoZero
      session-AreCoherent session_unset session_empty
