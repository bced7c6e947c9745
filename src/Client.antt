-- ===== src/Client.antt =====
-- node.cpp, session.cpp and loop.cpp together: a node with its session, while libevent calls it back
-- and the loop runs the jobs that it posts.
pub mod Running
use wshttp.Prelude.{
  ℕ, String, ◌≡◌, Bool, true, none, some, List, [], ◌∷◌, ◌++◌, map, Option, if◌then◌else◌,
}
use wshttp.Prelude.Outcome.{Result, ok, throw, dangling_access, ◌>>=◌}
use wshttp.Maps.{find, assign, string_key}
use wshttp.Uri.{host}
use wshttp.Session.{Session, Http2, Posted}
use wshttp.Session.Hooks.{Environment}
use wshttp.Session.Transfer.{Driver}
use wshttp.Session.Setup.{Net, event_cb}
use wshttp.Session.Driving.{Input, react}
use wshttp.Session.Outbound.Life.{CallsOnly, LocalInet}
use wshttp.Owned.{through}
use wshttp.Node.{Node, close_session}

-- A job that waits in the queue of the loop: the lambda of `outbound_session::close_session`, which
-- holds the session by a plain pointer, with the place of that session in the table.
pub record Job : Type 0 where
  pub key : String
  pub alive : Bool

pub record Client : Type 0 where
  pub node : Node
  pub pending : List Job

-- The session of the node, which stands under the host, has come to `t`, and what it posted joins
-- the queue.
unfoldable pub settle : Session → Client → Client
unfolding host
settle t c = record {
  node = record (c.node) {
    sessions = assign (host c.node.uri) (some (record t { posted = [] })) c.node.sessions;
  };
  pending =
      c.pending
      ++ map {A = Posted} {B = Job} (λ _. record { key = host c.node.uri; alive = true }) t.posted;
}

-- A callback of libevent for the session.
unfoldable pub callback : Result Session → Client → Result Client
unfolding settle
callback r c = r >>= λ t. ok (settle t c)

-- The job: the node is to close the session to the host that the session names.
unfoldable pub run_job : Node → Job → Result Node
unfolding close_session
run_job n job =
    (if job.alive then through (find job.key n.sessions) else throw dangling_access) >>= λ t.
    ok (close_session t.host n)

unfoldable pub run_jobs : List Job → Node → Result Node
unfolding run_job
run_jobs [] n = ok n
run_jobs (job ∷ jobs) n = run_job n job >>= run_jobs jobs

-- A pass of the loop over its queue.
unfoldable pub pass : Client → Result Client
unfolding run_jobs
pass c = run_jobs c.pending c.node >>= λ n. ok (record { node = n; pending = [] })

-- The session of the node.
abbrev pub current : Client → Option (Option Session)
current c = find (host c.node.uri) c.node.sessions

-- What happens to a node whose own end has an IPv4 address: an event of its session before it is
-- configured, a call for it once it is, and a pass of the loop. While a job of the session waits,
-- nothing else happens to it.
pub data Step (env : Environment) (c : Client) (r : Result Client) : Type 0 where
  event :
      (t : Session) (net : Net) (d : Driver) (ready : Bool) (alpn : List ℕ)
      → CallsOnly env d
      → LocalInet net t.fd
      → current c ≡ some (some t)
      → t.http2 ≡ none
      → c.pending ≡ []
      → r ≡ callback (event_cb net d t ready alpn) c
      → Step env c r
  input :
      (t : Session) (h : Http2) (d : Driver) (i : Input)
      → CallsOnly env d
      → current c ≡ some (some t)
      → t.http2 ≡ some h
      → c.pending ≡ []
      → r ≡ callback (react d t i) c
      → Step env c r
  passes : r ≡ pass c → Step env c r

-- Steps in a row, up to the first exception.
pub data Reach (env : Environment) (c : Client) : Result Client → Type 0 where
  here : Reach env c (ok c)
  later : {t : Client} {r : Result Client} → Reach env c (ok t) → Step env t r → Reach env c r
