-- ===== src/Listener.antt =====
-- include/wshttp/listener.hpp and src/listener.cpp: a listener on a port, with the inbound sessions
-- that it accepted.
pub mod Sessions
pub mod Order
pub mod Closing
use wshttp.Prelude.{ℕ, Bool, true, false, Option, none, some, List, [], ◌∷◌, if◌then◌else◌}
use wshttp.Prelude.Outcome.{Result, ok, throw, runtime_error, ◌>>=◌, ◌>>◌, require}
use wshttp.Maps.{try_emplace, assign, erase}
use wshttp.Encoding.{two, host_to_big}
use wshttp.Address.Ip.{IpAddress, Sockaddr, of_port, of_sockaddr}
use wshttp.Address.Ip.Keys.{ip_key}
use wshttp.Stream.{inbound}
use wshttp.Session.{Session, new_session}
use wshttp.Session.Setup.{Net, init_internals_inbound}

-- `_sessions`; a `shared_ptr` that is null is `none`.
abbrev pub Sessions : Type 0
Sessions = List (IpAddress × Option Session)

-- `sin_port` is the port that the socket was bound to, in network order.
pub record Listener : Type 0 where
  pub local : IpAddress
  pub sin_port : Option ℕ
  pub fd : Option ℕ
  pub error_cb_set : Bool
  pub sessions : Sessions

-- What libevent and the system answer when the listener binds.
pub record Binding : Type 0 where
  pub big_endian : Bool
  pub bound : Option ℕ
  pub sock_name : Option Sockaddr

-- The state after the constructor's initialisers.
unfoldable pub new_listener : ℕ → Listener
new_listener p = record {
  local = of_port p;
  sin_port = none;
  fd = none;
  error_cb_set = false;
  sessions = [];
}

-- `_init_internals()`, and so the constructor.
unfoldable pub init_internals : Binding → Listener → Result Listener
init_internals b l = elim b.bound [
  | none ↦ throw runtime_error
  | some fd ↦ elim b.sock_name [
    | none ↦ throw runtime_error
    | some name ↦ of_sockaddr b.big_endian name >>= λ local. ok (record l {
      local = local;
      sin_port = some (host_to_big b.big_endian two l.local.port);
      fd = some fd;
      error_cb_set = true;
    })
  ]
]

-- The constructor of `inbound_session`.
unfoldable pub make_inbound : Net → IpAddress → Result Session
make_inbound net remote =
    init_internals_inbound net (
      new_session inbound (some net.accepted_fd) (record { local = of_port 0; remote = remote }) "")

-- The state that is left is returned with the outcome, since an exception leaves one too.
unfoldable pub create_inbound_session : Net → IpAddress → Listener → Listener × Result (Unit {0})
create_inbound_session net remote l =
    let (emplaced, made) = try_emplace remote none l.sessions in
    if made
    then elim (make_inbound net remote) [
      | ok s ↦ (record l { sessions = assign remote (some s) emplaced }, ok tt)
      | throw e ↦ (record l { sessions = emplaced }, throw e)
    ]
    else (record l { sessions = (erase remote emplaced).0 }, ok tt)

unfoldable pub accept_cb : Net → Sockaddr → Listener → Listener × Result (Unit {0})
unfolding create_inbound_session
accept_cb net addr l = elim (of_sockaddr net.big_endian addr) [
  | ok remote ↦ create_inbound_session net remote l
  | throw e ↦ (l, throw e)
]

unfoldable pub close_session : IpAddress → Listener → Listener
close_session remote l = record l { sessions = (erase remote l.sessions).0 }

unfoldable pub close_all : Listener → Listener
close_all l = record l { sessions = [] }

-- `close_listener()` posts a job: this is the port that the endpoint's `close_listener` then gets.
unfoldable pub close_listener : Listener → ℕ
close_listener l = l.local.port

-- The error callback of the listener.
unfoldable pub error_cb : Listener → ℕ
unfolding close_listener
error_cb l = close_listener l
