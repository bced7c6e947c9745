-- ===== src/Server.antt =====
-- listener.cpp, session.cpp and loop.cpp together: a listener with its sessions, while libevent
-- calls them back and the loop runs the jobs that they post.
pub mod Keeping
pub mod Accepting
pub mod Running
pub mod Changes
pub mod Peers
pub mod Progress
pub mod Leaving
pub mod Queue
use wshttp.Prelude.{
  ℕ, ◌≡◌, Bool, true, false, ◌&&◌, Option, none, some, List, [], ◌∷◌, ◌++◌, map, All, if◌then◌else◌,
}
use wshttp.Prelude.Outcome.{Result, ok, throw, dangling_access, ◌>>=◌}
use wshttp.Maps.{find, assign, is_some}
use wshttp.Address.Ip.{IpAddress, Sockaddr, Printer, path_to_string, equal, of_sockaddr}
use wshttp.Address.Ip.Keys.{ip_key}
use wshttp.Address.Ip.Coherent.{IsInet}
use wshttp.Session.{Session, Http2}
use wshttp.Session.Hooks.{Environment}
use wshttp.Session.Transfer.{Driver}
use wshttp.Session.Setup.{Net, event_cb}
use wshttp.Session.Connection.{CallsOnly}
use wshttp.Session.Driving.{Input, react}
use wshttp.Owned.{through}
use wshttp.Listener.{Listener, Sessions, accept_cb, close_session, close_all}

-- A job that waits in the queue of the loop: the lambda of `inbound_session::close_session`, which
-- holds the session by a plain pointer. `alive` says whether that session still exists, and `key`
-- is the place in the table where it then stands.
pub record Job : Type 0 where
  pub key : IpAddress
  pub alive : Bool

pub record Server : Type 0 where
  pub listener : Listener
  pub pending : List Job

-- The sessions that a connection has erased are gone for the jobs that point to them.
unfoldable pub outlived : Sessions → List Job → List Job
outlived sessions jobs =
    map {B = Job}
      (λ (job : Job). record job { alive = job.alive && is_some (find job.key sessions) }) jobs

unfoldable pub accept : Net → Sockaddr → Server → Result Server
unfolding outlived accept_cb
accept net name s =
    let (l, returned) = accept_cb net name s.listener in
    returned >>= λ _. ok (record { listener = l; pending = outlived l.sessions s.pending })

-- The session at `key` has come to `t`, and what it posted joins the queue.
unfoldable pub settle : IpAddress → Session → Server → Server
settle key t s = record {
  listener = record (s.listener) {
    sessions = assign key (some (record t { posted = [] })) s.listener.sessions;
  };
  pending = s.pending ++ map {B = Job} (λ _. record { key = key; alive = true }) t.posted;
}

-- A callback of libevent for the session at `key`.
unfoldable pub callback : IpAddress → Result Session → Server → Result Server
unfolding settle
callback key r s = r >>= λ t. ok (settle key t s)

-- The session that a job points to.
abbrev pub pointee : Listener → Job → Result Session
pointee l job = if job.alive then through (find job.key l.sessions) else throw dangling_access

-- The job: the listener is to close the session at the remote end of the path.
unfoldable pub run_job : Listener → Job → Result Listener
unfolding close_session
run_job l job = pointee l job >>= λ t. ok (close_session t.ends.remote l)

unfoldable pub run_jobs : List Job → Listener → Result Listener
unfolding run_job
run_jobs [] l = ok l
run_jobs (job ∷ jobs) l = run_job l job >>= run_jobs jobs

-- A pass of the loop over its queue.
unfoldable pub pass : Server → Result Server
unfolding run_jobs
pass s = run_jobs s.pending s.listener >>= λ l. ok (record { listener = l; pending = [] })

-- `listener::close_all`, which the endpoint calls when it shuts down: the jobs that wait stay.
unfoldable pub shut : Server → Server
unfolding outlived close_all
shut s = record {
  listener = close_all s.listener;
  pending = outlived (close_all s.listener).sessions s.pending;
}

-- No job of the session at `key` waits.
abbrev pub IsQuiet : IpAddress → List Job → Type 0
IsQuiet key jobs = All (λ job. equal key job.key ≡ false) jobs

-- The address of the machine's end is an IPv4 one, where `getsockname` gives it.
abbrev pub LocalInet : Net → Type 0
LocalInet net = (name : Sockaddr) → net.local_name net.bev_fd ≡ some name → IsInet name

-- What happens to a server whose connections are of IPv4: a connection, an event of a session that
-- is not configured yet, a call for one that is, a pass of the loop, and the shutdown. While a job of a
-- session waits, nothing else happens to that session, nobody connects from its address, and the
-- server is not shut down.
pub data Step (env : Environment) (s : Server) (r : Result Server) : Type 0 where
  accepts :
      (net : Net) (name : Sockaddr) (remote : IpAddress)
      → IsInet name
      → LocalInet net
      → of_sockaddr net.big_endian name ≡ ok remote
      → IsQuiet remote s.pending
      → r ≡ accept net name s
      → Step env s r
  event :
      (key : IpAddress) (t : Session) (net : Net) (d : Driver) (connected : Bool) (alpn : List ℕ)
      → CallsOnly env d
      → find key s.listener.sessions ≡ some (some t)
      → t.http2 ≡ none
      → IsQuiet key s.pending
      → r ≡ callback key (event_cb net d t connected alpn) s
      → Step env s r
  input :
      (key : IpAddress) (t : Session) (h : Http2) (d : Driver) (i : Input)
      → CallsOnly env d
      → find key s.listener.sessions ≡ some (some t)
      → t.http2 ≡ some h
      → IsQuiet key s.pending
      → r ≡ callback key (react d t i) s
      → Step env s r
  passes : r ≡ pass s → Step env s r
  shuts : s.pending ≡ [] → r ≡ ok (shut s) → Step env s r

-- Steps in a row, up to the first exception.
pub data Reach (env : Environment) (s : Server) : Result Server → Type 0 where
  here : Reach env s (ok s)
  later : {t : Server} {r : Result Server} → Reach env s (ok t) → Step env t r → Reach env s r
