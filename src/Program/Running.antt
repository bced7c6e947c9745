-- ===== src/Program/Running.antt =====
-- endpoint.cpp, listener.cpp, node.cpp, session.cpp and loop.cpp: whole runs of the program.
use wshttp.Prelude.{
  ℕ, ◌≡◌, refl, inl, inr, List, sym, subst, ◌∙◌, Option, none, some, [], arith, if◌then◌else◌,
}
use wshttp.Prelude.Outcome.{Result, ok, throw}
use wshttp.Maps.{find, nat_key, string_key}
use wshttp.Maps.Laws.{find_of_empty}
use wshttp.Session.{Session}
use wshttp.Session.Hooks.{Environment}
use wshttp.Listener.{Listener}
use wshttp.Endpoint.{Endpoint, make, handle_ep_opt}
use wshttp.Context.{Answers, Creds}
use wshttp.Owned.{callback, settle, post, pass, IsQuiet, IsIdle}
use wshttp.Owned.Keeping.{Entry}
use wshttp.Owned.Posting.{callback-Good, post-Good, Comes}
use wshttp.Owned.Passing.{pass_leaves, pass_keeps, emptied}
use wshttp.Program.{Place, inbound_at, outbound_at, look}
use wshttp.Program.Places.{program}
use wshttp.Program.Steps.{
  Running, Step, listens, connects, accepts, calls, early, drains, fails, passes, shuts, Reach,
  here, later, IsOrderly, IsOrderlyRun,
}
use wshttp.Program.Keeping.{moves, Callback-Comes, Fine, Sane, Whole, WholeResult}
use wshttp.Program.Growing.{Sane-Able, put-Sane, remove-Sane, perform-Sane, listens_on-Whole}
use wshttp.Program.Accepting.{accept-Whole}
use wshttp.Program.Connecting.{connects_to-Whole}
use wshttp.Program.Shutting.{shut-Whole}

callback-Whole :
    (p : Place) (t : Session) (r : Result Session) (w : Running)
    → look p w.state ≡ some (some t)
    → IsQuiet program p w.pending
    → Comes program Fine p r
    → Whole w
    → WholeResult (callback program p r w)
unfolding callback settle
callback-Whole p t (throw e) w found quiet comes whole = comes
callback-Whole p t (ok u) w found quiet comes whole = record {
  good = callback-Good program Fine moves p t (ok u) w found quiet comes whole.good;
  sane = put-Sane p (record u { posted = [] }) w.state whole.sane;
}

post-Whole :
    (port : ℕ) (l : Listener) (w : Running)
    → find port w.state.listeners ≡ some (some l)
    → IsIdle program port w.pending
    → Whole w
    → Whole (post program port w)
unfolding post
post-Whole port l w found idle whole = record {
  good = post-Good program Fine port w (Sane-Able port l w.state whole.sane found) idle whole.good;
  sane = whole.sane;
}

-- What the next pass of the loop does.
pub pass-Whole :
    (w : Running)
    → Whole w
    → (v : Running) × (pass program w ≡ ok v)
      × (v.pending ≡ [])
      × Whole v
      × ((p : Place)
          → look p v.state ≡ (if emptied program Fine p w.pending then none else look p w.state))
pass-Whole w whole =
    let (v, ran, none_left, good, left) = pass_leaves program Fine w whole.good in
    (
      v,
      ran,
      none_left,
      record {
        good = good;
        sane = pass_keeps program Fine Sane remove-Sane perform-Sane w v ran whole.sane;
      },
      left,
    )

-- A session some of whose output has been written stands where it did.
pub drained-Comes :
    (p : Place) (t : Session) (rest : List ℕ)
    → Entry program Fine p (some t)
    → Comes program Fine p (ok (record t { output = rest }))
drained-Comes (inbound_at port a) t rest (own, sound) = (
  (
    own,
    record {
      printable = sound.printable;
      settled = refl;
      stage = elim sound.stage [
        | inl f ↦ inl (record {
          is_inbound = f.is_inbound;
          same_ends = f.same_ends;
          sound = f.sound;
          quiet = refl;
        })
        | inr inv ↦ inr (record {
          configured = inv.configured;
          is_inbound = inv.is_inbound;
          same_ends = inv.same_ends;
          sound = inv.sound;
          closes_itself = tt;
        })
      ];
    },
  ),
  inl sound.settled,
)
drained-Comes (outbound_at n h) t rest (own, (idle, quiet)) = (
  (
    own,
    (
      record {
        is_outbound = idle.is_outbound;
        same_host = idle.same_host;
        printable = idle.printable;
        no_streams = idle.no_streams;
        closes_itself = tt;
      },
      refl,
    ),
  ),
  inl quiet,
)

Step-Whole :
    (env : Environment) (w : Running) (r : Result Running) (step : Step env w r)
    → IsOrderly env w r step
    → Whole w
    → WholeResult r
unfolding IsOrderly
Step-Whole env w r (listens b port e) makes whole =
    subst WholeResult (sym e) (listens_on-Whole b port w makes whole)
Step-Whole env w r (connects k net u opts printable e) makes whole =
    subst WholeResult (sym e) (connects_to-Whole k net u opts w printable makes whole)
Step-Whole env w r (accepts port l net name remote found is_inet local made e) quiet whole =
    subst WholeResult (sym e)
      (accept-Whole port l net name remote w found is_inet local made quiet whole)
Step-Whole env w r (calls p t q found called e) quiet whole = subst WholeResult (sym e) (
    callback-Whole p t q w found quiet
      (Callback-Comes env p t q (whole.good.entries p (some t) found) called) whole)
Step-Whole env w r (early p t d q found unset called e) orderly whole = absurd orderly
Step-Whole env w r (drains p t written rest found split e) quiet whole = subst WholeResult (sym e) (
    callback-Whole p t (ok (record t { output = rest })) w found quiet
      (drained-Comes p t rest (whole.good.entries p (some t) found)) whole)
Step-Whole env w r (fails port l found e) idle whole =
    subst WholeResult (sym e) (post-Whole port l w found idle whole)
Step-Whole env w r (passes e) orderly whole =
    let (v, ran, _, whole', _) = pass-Whole w whole in subst WholeResult (sym (e ∙ ran)) whole'
Step-Whole env w r (shuts e) quiet whole = subst WholeResult (sym e) (shut-Whole w quiet whole)

Reach-Whole :
    (env : Environment) (w : Running) (r : Result Running) (run : Reach env w r)
    → IsOrderlyRun env w r run
    → Whole w
    → WholeResult r
unfolding IsOrderlyRun
Reach-Whole env w r here orderly whole = whole
Reach-Whole env w r (later {v} before step) (orderly, last) whole =
    Step-Whole env v r step last (Reach-Whole env w (ok v) before orderly whole)

-- The endpoint as its constructor leaves it.
pub made-Whole :
    (i o : Answers) (c : Option Creds) (id : ℕ) (e : Endpoint)
    → (make i o c id).0 ≡ ok e
    → Whole (record { state = e; pending = [] })
unfolding make handle_ep_opt look find
made-Whole i o c id e did =
    let no_listeners : e.listeners ≡ [] = ground (arith, did) in
    let no_nodes : e.nodes ≡ [] = ground (arith, did) in
    record {
      good = record {
        entries = λ p v found. nothing_stands p v no_listeners no_nodes found;
        owed = tt;
      };
      sane = rw no_listeners tt;
    }
  where
    nothing_stands :
        (p : Place) (v : Option Session)
        → e.listeners ≡ []
        → e.nodes ≡ []
        → look p e ≡ some v
        → Entry program Fine p v
    nothing_stands (inbound_at port a) v no_listeners no_nodes found =
        absurd (ground (arith, find_of_empty port e.listeners no_listeners, found))
    nothing_stands (outbound_at n h) v no_listeners no_nodes found =
        absurd (ground (arith, find_of_empty n e.nodes no_nodes, found))

-- What an orderly run of the program comes to, from the endpoint's constructor on: calls to listen
-- and to connect, connections, handshakes with whatever protocol, input, output, failures of sessions
-- and of listeners, passes of the loop, and shutdowns. The run is orderly where, first, each listener
-- and node that it asks for can be made, the listener on the port that is asked for; second, no session
-- has input or room for output before it is configured; third, while a job that empties a place waits,
-- nothing calls the session there, connects from its address or shuts its listener down; and fourth,
-- while the job of a listener waits the listener does not fail again. The addresses are of IPv4,
-- nghttp2 changes a session by its hooks and the send callback only, and it delivers no data to an
-- outbound session.
-- Then no step goes through a null pointer or uses a session or a listener that is gone, and none
-- throws anything but a runtime error, which ends the run. Each listener is there, on its own port, and
-- each session at its own place; and the jobs that wait point to different sessions and listeners that
-- are there, none of which an earlier job takes away.
pub program_runs-Whole :
    (env : Environment) (i o : Answers) (c : Option Creds) (id : ℕ) (e : Endpoint)
    (r : Result Running)
    → (make i o c id).0 ≡ ok e
    → (run : Reach env (record { state = e; pending = [] }) r)
    → IsOrderlyRun env (record { state = e; pending = [] }) r run
    → WholeResult r
program_runs-Whole env i o c id e r did run orderly =
    Reach-Whole env _ r run orderly (made-Whole i o c id e did)
