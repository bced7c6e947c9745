-- ===== src/Program/Safety.antt =====
-- endpoint.cpp, listener.cpp, node.cpp, session.cpp and loop.cpp: what any run of the program comes to,
-- in whatever order things happen.
use wshttp.Prelude.{Option, ℕ, ◌≡◌, sym, subst, some, []}
use wshttp.Prelude.Outcome.{
  Result, ok, throw, Exception, runtime_error, null_access, dangling_access,
}
use wshttp.Maps.{nat_key}
use wshttp.Session.Hooks.{Environment}
use wshttp.Context.{Answers, Creds}
use wshttp.Endpoint.{Endpoint, make}
use wshttp.Endpoint.Tables.{AreLive}
use wshttp.Owned.{post, become}
use wshttp.Owned.Keeping.{Owed}
use wshttp.Program.Places.{program}
use wshttp.Program.Steps.{
  Running, Step, listens, connects, accepts, calls, early, drains, fails, passes, shuts, Reach,
  here, later, listens_on, connects_to,
}
use wshttp.Program.Keeping.{Callback-Comes, Fine}
use wshttp.Program.Running.{drained-Comes, made-Whole}
use wshttp.Program.Standing.{Stand, listen-Stand, connect-Stand}
use wshttp.Program.Yielding.{
  Yields, Runtime, early_cases, early-Yields, callback-Yields, accept-Yields, pass-Yields,
  shut-Yields,
}

-- Which exception a step may throw: one for what could not be set up or sent; in a pass, the use of
-- what is gone, where the jobs do not all point to different things that are there; before a session
-- is configured, and where a listener could not be made, the use of a null pointer.
abbrev pub Excuse :
    (env : Environment) (w : Running) (r : Result Running) → Step env w r → Exception → Type 0
Excuse env w r (passes e) x = (x ≡ dangling_access) × (¬ Owed program Fine w.pending w.state)
Excuse env w r (early p t d q found unset called e) x = x ≡ null_access
Excuse env w r (shuts e) x = (x ≡ null_access) × (¬ AreLive w.state.listeners)
Excuse env w r _ x = x ≡ runtime_error

-- Every entry of the tables is a session that stands at its own place and is as it should be.
abbrev pub IsSafe : (env : Environment) (w : Running) (r : Result Running) → Step env w r → Type 0
IsSafe env w (ok v) step = Stand v.state
IsSafe env w (throw x) step = Excuse env w (throw x) step x

-- The state that a step yields, or its excuse, is that of its result.
yielded :
    (excuse : Exception → Type 0) (p r : Result Running) → r ≡ p → Yields excuse p → Yields excuse r
yielded excuse p r same = subst (Yields excuse) (sym same)

Step-IsSafe :
    (env : Environment) (w : Running) (r : Result Running) (step : Step env w r)
    → Stand w.state
    → Yields (Excuse env w r step) r
unfolding listens_on connects_to become post
Step-IsSafe env w r (listens b port e) stand =
    yielded Runtime _ r e (listen-Stand b port w.state stand)
Step-IsSafe env w r (connects k net u opts printable e) stand =
    yielded Runtime _ r e (connect-Stand k net u opts w.state printable stand)
Step-IsSafe env w r (accepts port l net name remote found is_inet local made e) stand =
    yielded Runtime _ r e (accept-Yields port l net name remote w found is_inet local made stand)
Step-IsSafe env w r (calls p t q found called e) stand =
    yielded Runtime _ r e (
      callback-Yields p t q w found (Callback-Comes env p t q (stand p (some t) found) called)
        stand)
Step-IsSafe env w r (early p t d q found unset called e) stand =
    yielded _ _ r e (early-Yields p t q w found (early_cases d t q unset called) stand)
Step-IsSafe env w r (drains p t written rest found split e) stand =
    yielded Runtime _ r e
      (callback-Yields p t _ w found (drained-Comes p t rest (stand p (some t) found)) stand)
Step-IsSafe env w r (fails port l found e) stand = yielded Runtime _ r e stand
Step-IsSafe env w r (passes e) stand = yielded _ _ r e (pass-Yields w stand)
Step-IsSafe env w r (shuts e) stand = yielded _ _ r e (shut-Yields w stand)

Reach-Stand :
    (env : Environment) (w last : Running)
    → Stand w.state
    → Reach env w (ok last)
    → Stand last.state
Reach-Stand env w last stand run = reached (ok last) run
  where
    reached : (r : Result Running) → Reach env w r → Yields (λ x. Unit) r
    reached r here = stand
    reached (ok u) (later {v} before step) = Step-IsSafe env v (ok u) step (reached (ok v) before)
    reached (throw u) (later before step) = tt

-- Any run of the program, from the endpoint's constructor on, in whatever order things happen:
-- calls to listen and to connect, whether or not a listener or a node can be made, connections,
-- handshakes with whatever protocol, input and output, also before a session is configured, failures of
-- sessions and of listeners, passes of the loop, and shutdowns. The addresses are of IPv4, nghttp2
-- changes a session by its hooks and the send callback only, and it delivers no data to an outbound
-- session.
-- Each step leaves tables in which every entry of a listener or a node is a session, none a null
-- pointer, that stands at its own place, can be printed, holds no job, and has sound streams in a
-- listener and none in a node; or the step throws, which ends the run. A pass of the loop throws only
-- by using what is gone, and only where the jobs that wait do not all point to different things that
-- are there; input and room for output before the session is configured, and a shutdown only where the
-- listener of some port could not be made, go through a null pointer; and every other step throws
-- only a runtime error.
pub program_runs-Safe :
    (env : Environment) (i o : Answers) (c : Option Creds) (id : ℕ) (e : Endpoint) (w : Running)
    (r : Result Running)
    → (make i o c id).0 ≡ ok e
    → Reach env (record { state = e; pending = [] }) (ok w)
    → (step : Step env w r) → IsSafe env w r step
program_runs-Safe env i o c id e w r did run step =
    safe r step
      (Step-IsSafe env w r step (Reach-Stand env _ w (made-Whole i o c id e did).good.entries run))
  where
    safe :
        (r : Result Running) (step : Step env w r)
        → Yields (Excuse env w r step) r
        → IsSafe env w r step
    safe (ok v) step stand = stand
    safe (throw x) step excuse = excuse
