-- ===== src/Tests/Nodes.antt =====
-- Nodes and outbound sessions (node.cpp, session.cpp).
use wshttp.Prelude.{List, ◌∷◌, ◌≡◌, ◌∙◌, refl, true, false, none, some, [], arith}
use wshttp.Prelude.Outcome.{ok, throw, runtime_error, null_access, invalid_argument}
use wshttp.Maps.{find, string_key, try_emplace, assign}
use wshttp.Address.Ip.{of_port}
use wshttp.Stream.{outbound, callback_failure}
use wshttp.Session.{Session, new_session}
use wshttp.Session.Setup.{
  event_cb, config_send_initial, initialize_outbound, send_initial_outbound, local_address,
  submit_settings, init_internals_outbound, new_ssl_outbound,
}
use wshttp.Session.Outbound.Life.{CallsOnly, finished, LocalInet}
use wshttp.Uri.{default_uri, host}
use wshttp.Node.{
  Node, Socket, make_node, new_node, init_internals, create_outbound_session, make_outbound,
}
use wshttp.Maps.Laws.{find_of_empty}
use wshttp.Endpoint.{Endpoint, connect_uri}
use wshttp.Endpoint.Tables.{connect_uri_lem}
use wshttp.Endpoint.Connecting.{
  Operation, listens, session_closes, shuts, operate_all, unbound_connect_fails,
}
use wshttp.Request.{add_setting}
use wshttp.Node.Answering.{response_fails}
use wshttp.Session.{
  on_stream_close, send_data, on_frame_recv, on_begin_headers, on_header, on_data_chunk_recv,
}
use wshttp.Tests.Running.{name, peer, of_name}
use wshttp.Client.{Client, current, callback, settle, pass, Reach, here, later, event, passes}
use wshttp.Session.Hooks.{
  close_session, Frame, headers_frame, response, Event, begin_headers, header, stream_close,
  data_chunk, on_event_outbound, run_events,
}
use wshttp.Address.Ip.{path_to_string, to_string}
use wshttp.Tests.Samples.{env, net_at, idle_driver, unbound}

abbrev socket : Socket
socket = record { big_endian = false; opened = some 6; non_blocking = true; bind_done = true }

-- The session of a node without a local address.
abbrev pub unbound_session : Session
unbound_session =
    record (new_session outbound none (record { local = of_port 0; remote = of_port 0 })
      (host default_uri)) { has_ssl = true; has_bev = true; enabled = true }

abbrev pub node : Node
node = record (new_node default_uri) { sessions = (host default_uri, some unbound_session) ∷ [] }

node_made : make_node socket (net_at none) default_uri none ≡ ok node
unfolding make_node new_node init_internals create_outbound_session make_outbound new_session
    init_internals_outbound new_ssl_outbound try_emplace assign find host
node_made = refl

abbrev endpoint : Endpoint
endpoint = record {
  client_id = 1;
  ctx = none;
  listeners = [];
  nodes = [];
  close_immediately = false;
}

connected : (connect_uri socket (net_at none) default_uri none endpoint).1 ≡ ok true
connected =
    (connect_uri_lem socket (net_at none) default_uri none (host default_uri) endpoint).1
    ∙ rw (find_of_empty (host default_uri) endpoint.nodes refl, node_made) refl

-- The user then listens in vain, a session is closed, and the endpoint is shut down.
abbrev more : List Operation
more =
    listens (record { big_endian = false; bound = none; sock_name = none }) 80
    ∷ session_closes (host default_uri) (host default_uri)
    ∷ shuts
    ∷ []

abbrev connected_endpoint : Endpoint
connected_endpoint = (connect_uri socket (net_at none) default_uri none endpoint).0

unbound_connect_fails_example :
    ((n : Node) × (find (host default_uri) connected_endpoint.nodes ≡ some (some n))
      × ((s : Session) × (find (host default_uri) n.sessions ≡ some (some s))
          × (event_cb (net_at none) idle_driver s true [] ≡ throw runtime_error)))
    × (connect_uri socket
          (net_at none)
          default_uri
          (some (of_port 0))
          (operate_all connected_endpoint more)
        ≡ (operate_all connected_endpoint more, throw invalid_argument))
unbound_connect_fails_example =
    unbound_connect_fails socket socket (net_at none) (net_at none) (net_at none) idle_driver
      default_uri default_uri (some (of_port 0)) endpoint more refl refl connected

-- The session of a node with a local address, as it is made and as its connection leaves it.
abbrev bound_session : Session
bound_session = record (new_session outbound (some 6) unbound "h") {
  has_ssl = true;
  has_bev = true;
  enabled = true;
}

bound_session_made : make_outbound (net_at none) (some 6) none "h" ≡ ok bound_session
unfolding make_outbound init_internals_outbound new_ssl_outbound new_session
bound_session_made = refl

abbrev set_session : Session
set_session = record (bound_session) {
  ends = record (unbound) { local = peer };
  http2 = some (record {
    callbacks =
        on_stream_close ∷ send_data ∷ on_frame_recv ∷ on_begin_headers ∷ on_header
        ∷ on_data_chunk_recv ∷ [];
    no_recv_client_magic = false;
    settings = add_setting [] 100 100;
  });
}

is_set : event_cb (net_at (some name)) idle_driver bound_session true [] ≡ ok set_session
unfolding event_cb config_send_initial initialize_outbound send_initial_outbound local_address
    submit_settings new_session path_to_string to_string of_port
is_set = rw of_name refl

abbrev reply : Frame
reply = record { type = headers_frame; cat = response; stream_id = 1; end_stream = false }

abbrev before : List Event
before = begin_headers reply ∷ stream_close 1 0 ∷ []

response_fails_example :
    (run_events (on_event_outbound env) set_session before ≡ ok (set_session, []))
    × (on_event_outbound env set_session (header reply (97 ∷ []) (98 ∷ []))
        ≡ ok (set_session, [], callback_failure))
    × (on_event_outbound env set_session (data_chunk 1 (1 ∷ [])) ≡ throw null_access)
response_fails_example =
    response_fails env (net_at none) (net_at (some name)) idle_driver (some 6) none "h"
      bound_session set_session before reply (97 ∷ []) (98 ∷ []) (1 ∷ []) 1 bound_session_made
      is_set (tt, (tt, tt)) refl

abbrev pub client : Client
client = record { node = node; pending = [] }

-- The connection has failed, and the session waits to be closed.
abbrev pub failed_client : Client
failed_client = record {
  node = node;
  pending = record { key = host default_uri; alive = true } ∷ [];
}

current_session : current client ≡ some (some unbound_session)
unfolding find new_node host
current_session = refl

unset : unbound_session.http2 ≡ none
unfolding new_session
unset = refl

no_name : LocalInet (net_at none) unbound_session.fd
unfolding new_session
no_name name e = ground (arith, e)

failure :
    ok failed_client ≡ callback (event_cb (net_at none) idle_driver unbound_session false []) client
unfolding callback settle event_cb close_session new_session new_node assign host path_to_string
    to_string of_port
failure = refl

idle-CallsOnly : CallsOnly env idle_driver
idle-CallsOnly s = (finished, finished)

failed_run : Reach env client (pass failed_client)
failed_run =
    later
      (later here (
        event unbound_session (net_at none) idle_driver false [] idle-CallsOnly no_name
          current_session unset refl failure))
      (passes refl)
