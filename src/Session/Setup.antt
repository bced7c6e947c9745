-- ===== src/Session/Setup.antt =====
-- session.cpp: how the sessions are set up, before and after the connection stands. What the
-- system, OpenSSL, libevent and nghttp2 answer is the argument `Net`: `accepted_fd` is the descriptor
-- of a new connection, and `bev_fd` what `bufferevent_getfd` gives.
use wshttp.Prelude.{
  ℕ, String, Bool, true, false, ◌&&◌, ◌||◌, Option, none, some, List, [], ◌∷◌, length, ◌==◌, nat_eq,
  if◌then◌else◌,
}
use wshttp.Prelude.Outcome.{Result, ok, throw, runtime_error, null_access, ◌>>=◌, ◌>>◌, require}
use wshttp.Address.Ip.{Sockaddr, IpAddress, of_sockaddr, Printer, to_string, path_to_string}
use wshttp.Request.{usp, span_equal, add_setting}
use wshttp.Stream.{inbound, outbound}
use wshttp.Session.{
  Session, on_stream_close, send_data, on_frame_recv, on_begin_headers, on_header,
  on_data_chunk_recv,
}
use wshttp.Session.Hooks.{close_session}
use wshttp.Session.Transfer.{Driver, send_session_data}

pub record Net : Type 0 where
  pub big_endian : Bool
  pub printer : Printer
  pub ssl_made : Bool
  pub bufferevent_made : Bool
  pub accepted_fd : ℕ
  pub bev_fd : Option ℕ
  pub nodelay_set : (fd : Option ℕ) → Bool
  pub local_name : (fd : Option ℕ) → Option Sockaddr
  pub connecting : Bool
  pub option_made : Bool
  pub session_made : Bool
  pub settings_submitted : Bool
  pub max_concurrent_streams : ℕ

-- `new_ssl()` of the listener, and that of the node.
unfoldable pub new_ssl : Net → Result Bool
new_ssl net = require net.ssl_made runtime_error >> ok true

unfoldable pub new_ssl_outbound : Net → Result Bool
new_ssl_outbound net = require net.ssl_made runtime_error >> ok true

-- `getsockname`, and the address that is made of it. `message` is the exception's text, which may
-- throw itself.
unfoldable pub local_address : Net → (fd : Option ℕ) → (message : Result String) → Result IpAddress
local_address net fd message = elim (net.local_name fd) [
  | none ↦ message >>= λ _. throw runtime_error
  | some name ↦ of_sockaddr net.big_endian name
]

abbrev set_local : Session → IpAddress → Session
set_local s local = record s { ends = record (s.ends) { local = local } }

unfoldable pub init_internals_inbound : Net → Session → Result Session
unfolding new_ssl local_address
init_internals_inbound net s = do
  ssl ← new_ssl net
  require ssl runtime_error
  require net.bufferevent_made runtime_error
  require (net.nodelay_set net.bev_fd) runtime_error
  local ← local_address net net.bev_fd (to_string net.big_endian net.printer s.ends.remote)
  ok (record (set_local s local) {
    fd = net.bev_fd;
    has_ssl = true;
    has_bev = true;
    enabled = true;
  })

unfoldable pub init_internals_outbound : Net → Session → Result Session
unfolding new_ssl_outbound
init_internals_outbound net s = do
  ssl ← new_ssl_outbound net
  require ssl runtime_error
  require net.bufferevent_made runtime_error
  require net.connecting runtime_error
  ok (record s { has_ssl = true; has_bev = true; enabled = true })

unfoldable pub initialize_inbound : Net → Session → Result Session
initialize_inbound net s = do
  require net.option_made runtime_error
  require net.session_made runtime_error
  ok (record s {
    http2 = some (record {
      callbacks = on_stream_close ∷ send_data ∷ on_frame_recv ∷ on_begin_headers ∷ on_header ∷ [];
      no_recv_client_magic = true;
      settings = [];
    });
  })

unfoldable pub initialize_outbound : Net → Session → Result Session
unfolding local_address
initialize_outbound net s = do
  require (net.nodelay_set s.fd) runtime_error
  local ← local_address net s.fd (ok s.host)
  require net.session_made runtime_error
  ok (record (set_local s local) {
    http2 = some (record {
      callbacks =
          on_stream_close ∷ send_data ∷ on_frame_recv ∷ on_begin_headers ∷ on_header
          ∷ on_data_chunk_recv ∷ [];
      no_recv_client_magic = false;
      settings = [];
    });
  })

-- `nghttp2_submit_settings` with the one setting.
unfoldable pub submit_settings : Net → Session → Result Session
submit_settings net s = elim s.http2 [
  | none ↦ throw null_access
  | some h ↦ do
    require net.settings_submitted runtime_error
    ok (record s {
      http2 = some (record h { settings = add_setting [] net.max_concurrent_streams 100 });
    })
]

unfoldable pub send_initial_inbound : Net → Driver → Session → Result Session
unfolding submit_settings send_session_data
send_initial_inbound net d s = do s' ← submit_settings net s; send_session_data d s'

unfoldable pub send_initial_outbound : Net → Session → Result Session
unfolding submit_settings
send_initial_outbound net s = submit_settings net s

-- The two virtual calls, by the class of the session.
unfoldable pub config_send_initial : Net → Driver → Session → Result Session
unfolding initialize_inbound initialize_outbound send_initial_inbound send_initial_outbound
config_send_initial net d s = elim s.dir [
  | inbound ↦ do s' ← initialize_inbound net s; send_initial_inbound net d s'
  | outbound ↦ do s' ← initialize_outbound net s; send_initial_outbound net s'
]

-- `defaults::ALPN`
abbrev pub alpn_h2 : List ℕ
alpn_h2 = usp "h2"

-- The bit `BEV_EVENT_CONNECTED` of `events`, and the protocol that was negotiated. The other bits
-- change only what is logged. The message that is printed first names the two ends.
unfoldable pub event_cb :
    Net → Driver → Session → (connected : Bool) → (alpn : List ℕ) → Result Session
unfolding config_send_initial
event_cb net d s connected alpn = path_to_string net.big_endian net.printer s.ends >>= λ msg.
    if connected && (length alpn == 0 || span_equal alpn_h2 alpn)
    then config_send_initial net d s
    else ok (close_session s)
