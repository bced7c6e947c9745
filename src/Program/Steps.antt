-- ===== src/Program/Steps.antt =====
-- What happens to the program (endpoint.hpp, endpoint.cpp, listener.cpp, node.cpp, session.cpp and
-- loop.cpp), and runs of it.
use wshttp.Prelude.{ℕ, ◌≡◌, ◌⊎◌, ◌++◌, Bool, String, Option, none, some, List}
use wshttp.Prelude.Outcome.{Result, ok, throw, ◌>>=◌}
use wshttp.Maps.{find, assign, nat_key, string_key}
use wshttp.Address.Ip.{IpAddress, Sockaddr, of_sockaddr}
use wshttp.Address.Ip.Coherent.{IsInet}
use wshttp.Uri.{Uri, host}
use wshttp.Session.{Session, Http2}
use wshttp.Session.Hooks.{Environment}
use wshttp.Session.Transfer.{Driver, read_cb, write_cb}
use wshttp.Session.Setup.{Net, event_cb}
use wshttp.Session.Connection
use wshttp.Session.Driving.{Input, react}
use wshttp.Session.Outbound.Life
use wshttp.Listener.{Listener, Binding, new_listener, init_internals, accept_cb}
use wshttp.Node.{Node, Socket, make_node}
use wshttp.Node.Sessions.{IsPrintable}
use wshttp.Server.{LocalInet}
use wshttp.Endpoint.{Endpoint, listen, connect_uri, shutdown_endpoint}
use wshttp.Owned.{System, become, callback, post, pass, IsQuiet, IsIdle}
use wshttp.Program.{Place, inbound_at, outbound_at, held, look}
use wshttp.Program.Places.{program}

abbrev pub Running : Type 0
Running = System Endpoint Place ℕ

-- A callback that leaves a state and an outcome; the run ends where it throws.
abbrev pub after {ℓ} : {A : Type ℓ} → Endpoint × Result A → Running → Result Running
after (e, ok _) w = ok (become program e w)
after (e, throw x) w = throw x

-- What a call of the user leaves; an exception goes back to the user's thread (`call_get` of
-- Loop/Jobs.antt), and the program runs on.
unfoldable pub listens_on : Binding → ℕ → Running → Running
unfolding listen
listens_on b port w = become program (listen b port w.state).0 w

unfoldable pub connects_to : Socket → Net → Uri → Option IpAddress → Running → Running
unfolding connect_uri
connects_to k net u opts w = become program (connect_uri k net u opts w.state).0 w

-- The listener under the port accepts a connection.
unfoldable pub accept : ℕ → Net → Sockaddr → Running → Result Running
unfolding accept_cb
accept port net name w = held (find port w.state.listeners) >>= λ l.
    let (l', returned) = accept_cb net name l in
    after (record (w.state) { listeners = assign port (some l') w.state.listeners }, returned) w

unfoldable pub shut : Running → Result Running
unfolding shutdown_endpoint
shut w = shutdown_endpoint w.state >>= λ e. ok (become program e w)

-- The callbacks of libevent for a session, by where it stands: an event before it is configured, and
-- a call once it is.
pub data Callback (env : Environment) (t : Session) (r : Result Session) : Place → Type 0 where
  accepted_event :
      (port : ℕ) (remote : IpAddress) (net : Net) (d : Driver) (connected : Bool) (alpn : List ℕ)
      → Connection.CallsOnly env d
      → t.http2 ≡ none
      → r ≡ event_cb net d t connected alpn
      → Callback env t r (inbound_at port remote)
  accepted_input :
      (port : ℕ) (remote : IpAddress) (h : Http2) (d : Driver) (i : Input)
      → Connection.CallsOnly env d
      → t.http2 ≡ some h
      → r ≡ react d t i
      → Callback env t r (inbound_at port remote)
  made_event :
      (node name : String) (net : Net) (d : Driver) (ready : Bool) (alpn : List ℕ)
      → Life.CallsOnly env d
      → Life.LocalInet net t.fd
      → t.http2 ≡ none
      → r ≡ event_cb net d t ready alpn
      → Callback env t r (outbound_at node name)
  made_input :
      (node name : String) (h : Http2) (d : Driver) (i : Input)
      → Life.CallsOnly env d
      → t.http2 ≡ some h
      → r ≡ react d t i
      → Callback env t r (outbound_at node name)

-- What happens to a program whose addresses are of IPv4: the user has it listen on a port and connect
-- to a host; a connection comes in; libevent calls a session back, also with input or room for output
-- before the session is configured, and writes some of its output to the socket; a listener fails; the
-- loop makes a pass; and the endpoint is shut down.
pub data Step (env : Environment) (w : Running) (r : Result Running) : Type 0 where
  listens : (b : Binding) (port : ℕ) → r ≡ ok (listens_on b port w) → Step env w r
  connects :
      (k : Socket) (net : Net) (u : Uri) (opts : Option IpAddress)
      → IsPrintable opts
      → r ≡ ok (connects_to k net u opts w)
      → Step env w r
  accepts :
      (port : ℕ) (l : Listener) (net : Net) (name : Sockaddr) (remote : IpAddress)
      → find port w.state.listeners ≡ some (some l)
      → IsInet name
      → LocalInet net
      → of_sockaddr net.big_endian name ≡ ok remote
      → r ≡ accept port net name w
      → Step env w r
  calls :
      (p : Place) (t : Session) (q : Result Session)
      → look p w.state ≡ some (some t)
      → Callback env t q p
      → r ≡ callback program p q w
      → Step env w r
  early :
      (p : Place) (t : Session) (d : Driver) (q : Result Session)
      → look p w.state ≡ some (some t)
      → t.http2 ≡ none
      → (q ≡ read_cb d t) ⊎ (q ≡ write_cb d t)
      → r ≡ callback program p q w
      → Step env w r
  drains :
      (p : Place) (t : Session) (written rest : List ℕ)
      → look p w.state ≡ some (some t)
      → t.output ≡ written ++ rest
      → r ≡ callback program p (ok (record t { output = rest })) w
      → Step env w r
  fails :
      (port : ℕ) (l : Listener)
      → find port w.state.listeners ≡ some (some l)
      → r ≡ ok (post program port w)
      → Step env w r
  passes : r ≡ pass program w → Step env w r
  shuts : r ≡ shut w → Step env w r

-- Steps in a row, up to the first exception.
pub data Reach (env : Environment) (w : Running) : Result Running → Type 0 where
  here : Reach env w (ok w)
  later : {v : Running} {r : Result Running} → Reach env w (ok v) → Step env v r → Reach env w r

-- A step that comes in order: if there is no listener or node yet, it can be made, the listener on the
-- port that was asked for; libevent does not call a session back before it is configured; while a job
-- that empties a place waits, libevent does not call the session there, nobody connects from its
-- address, and a listener with such a place is not shut down; and while the job of a listener waits,
-- the listener does not fail again.
unfoldable pub IsOrderly :
    (env : Environment) (w : Running) (r : Result Running) → Step env w r → Type 0
IsOrderly env w r (listens b port e) =
    find port w.state.listeners ≡ none
    → (l : Listener) × (init_internals b (new_listener port) ≡ ok l) × (l.local.port ≡ port)
IsOrderly env w r (connects k net u opts printable e) =
    find (host u) w.state.nodes ≡ none → (n : Node) × (make_node k net u opts ≡ ok n)
IsOrderly env w r (accepts port l net name remote found is_inet local made e) =
    IsQuiet program (inbound_at port remote) w.pending
IsOrderly env w r (calls p t q found called e) = IsQuiet program p w.pending
IsOrderly env w r (early p t d q found unset called e) = ⊥
IsOrderly env w r (drains p t written rest found split e) = IsQuiet program p w.pending
IsOrderly env w r (fails port l found e) = IsIdle program port w.pending
IsOrderly env w r (passes e) = Unit
IsOrderly env w r (shuts e) =
    (port : ℕ) (remote : IpAddress) → IsQuiet program (inbound_at port remote) w.pending

unfoldable pub IsOrderlyRun :
    (env : Environment) (w : Running) (r : Result Running) → Reach env w r → Type 0
IsOrderlyRun env w r here = Unit
IsOrderlyRun env w r (later {v} before step) =
    IsOrderlyRun env w (ok v) before × IsOrderly env v r step
