-- ===== src/Program/Leaving.antt =====
-- session.cpp, listener.cpp, node.cpp and loop.cpp: how a session whose connection fails leaves the
-- program.
use wshttp.Prelude.{
  ℕ, ◌≡◌, refl, subst, ap, false, Option, none, some, List, [], ◌∷◌, ◌++◌, if◌then◌else◌,
}
use wshttp.Prelude.Outcome.{ok}
use wshttp.Address.Ip.Coherent.{AreCoherent, path_to_string-AreCoherent}
use wshttp.Session.{Session, Posted, listener_close_session, node_close_session}
use wshttp.Session.Connection.{close_inbound}
use wshttp.Session.Outbound.Life.{close_outbound}
use wshttp.Server.Running.{Stage-inbound}
use wshttp.Session.Hooks.{Environment, close_session}
use wshttp.Session.Setup.{Net, event_cb}
use wshttp.Session.Transfer.{Driver}
use wshttp.Context.{Answers, Creds}
use wshttp.Endpoint.{Endpoint, make}
use wshttp.Owned.{callback, settle, pass, IsQuiet}
use wshttp.Owned.Keeping.{Entry}
use wshttp.Owned.Passing.{emptied}
use wshttp.Owned.Leaving.{asked_leaves}
use wshttp.Program.{Place, inbound_at, outbound_at, look}
use wshttp.Program.Places.{program, same_place}
use wshttp.Program.Steps.{Running, Reach, IsOrderlyRun}
use wshttp.Program.Keeping.{Fine, moves}
use wshttp.Program.Running.{program_runs-Whole}

abbrev asking : Session → Posted → Session
asking t job = record t { posted = t.posted ++ job ∷ [] }

-- What stands at a place can be printed, has no job of its own, and posts one to be closed.
entry_lem :
    (p : Place) (t : Session)
    → Entry program Fine p (some t)
    → AreCoherent t.ends × (t.posted ≡ []) × ((job : Posted) × (close_session t ≡ asking t job))
entry_lem (inbound_at port remote) t (own, sound) = (
  sound.printable,
  sound.settled,
  (listener_close_session t.ends.remote, close_inbound t (Stage-inbound t sound.stage)),
)
entry_lem (outbound_at node name) t (own, (idle, quiet)) =
    (idle.printable, quiet, (node_close_session t.host, close_outbound t idle.is_outbound))

failure_asks :
    (net : Net) (d : Driver) (alpn : List ℕ) (t : Session)
    → AreCoherent t.ends
    → event_cb net d t false alpn ≡ ok (close_session t)
unfolding event_cb
failure_asks net d alpn t printable =
    let (msg, shown) = (path_to_string-AreCoherent net.big_endian net.printer t.ends).0 printable in
    rw (event_cb, shown) refl

-- The session as it was, once its job is taken.
taken_asking :
    (t : Session) (job : Posted) → t.posted ≡ [] → t ≡ record (asking t job) { posted = [] }
taken_asking t job settled = ap (λ jobs. with_posted jobs) settled
  where
    with_posted : List Posted → Session
    with_posted jobs = record t { posted = jobs }

-- Wherever an orderly run of the program has come (its listeners and nodes can be made, no session is
-- called back before it is configured, and nothing touches what a waiting job is to take away), for
-- addresses of IPv4 and nghttp2 that changes sessions by its hooks only and delivers no data to an
-- outbound one: where the connection of a session fails or ends, and no job that waits empties its
-- place, nothing throws, and the next pass of the loop throws nothing either. After it the session is
-- gone, and so is what the jobs that had waited were to take away; every other session is where it
-- was, and no job waits.
pub failing_connection_leaves :
    (env : Environment) (i o : Answers) (c : Option Creds) (id : ℕ) (e : Endpoint) (w : Running)
    (p : Place) (t : Session) (net : Net) (d : Driver) (alpn : List ℕ)
    → (make i o c id).0 ≡ ok e
    → (run : Reach env (record { state = e; pending = [] }) (ok w))
    → IsOrderlyRun env (record { state = e; pending = [] }) (ok w) run
    → look p w.state ≡ some (some t)
    → IsQuiet program p w.pending
    → (v x : Running) × (callback program p (event_cb net d t false alpn) w ≡ ok v)
      × (pass program v ≡ ok x)
      × (x.pending ≡ [])
      × ((q : Place)
          → look q x.state ≡ (
              if same_place p q
              then none
              else if emptied program Fine q w.pending
              then none
              else look q w.state))
unfolding callback
failing_connection_leaves env i o c id e w p t net d alpn did run orderly found quiet =
    let whole = program_runs-Whole env i o c id e (ok w) did run orderly in
    let entry = whole.good.entries p (some t) found in
    let (printable, settled, (job, asks)) = entry_lem p t entry in
    let (x, ran, idle, left) =
      asked_leaves program Fine moves p t (asking t job) job w found quiet
        (subst (λ s. Entry program Fine p (some s)) (taken_asking t job settled) entry)
        (rw settled refl) whole.good in
    (
      settle program p (asking t job) w,
      x,
      rw (failure_asks net d alpn t printable, asks) refl,
      ran,
      idle,
      left,
    )
