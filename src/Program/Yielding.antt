-- ===== src/Program/Yielding.antt =====
-- endpoint.cpp, listener.cpp, node.cpp, session.cpp and loop.cpp: what each step of the program comes
-- to, whatever jobs wait.
use wshttp.Prelude.{
  ℕ, ◌≡◌, ◌⊎◌, true, false, refl, ◌∙◌, inl, inr, none, some, List, [], ◌∷◌, arith, Option-cases,
  Bool-cases, ltb, length,
}
use wshttp.Prelude.Outcome.{
  Result, ok, throw, Exception, runtime_error, null_access, dangling_access, Result-cases,
}
use wshttp.Maps.{find, nat_key}
use wshttp.Session.{Session}
use wshttp.Address.Ip.{IpAddress, Sockaddr, of_sockaddr}
use wshttp.Address.Ip.Coherent.{IsInet}
use wshttp.Session.Setup.{Net}
use wshttp.Server.{LocalInet}
use wshttp.Session.Transfer.{Driver, read_cb, write_cb, read_session_data, write_session_data}
use wshttp.Server.Accepting.{make_inbound-Made, inet-IsCoherent, created-Entries, created-throws}
use wshttp.Listener.{Listener, close_listener, create_inbound_session}
use wshttp.Endpoint.{Endpoint, make}
use wshttp.Endpoint
use wshttp.Endpoint.Tables.{AreLive}
use wshttp.Owned.{Job, closes, does, callback, settle, pass, run_job, run_jobs, become}
use wshttp.Owned.Keeping.{Entry, Owed}
use wshttp.Owned.Posting.{Comes, put-Entries, taken}
use wshttp.Owned.Passing.{pass_leaves, pass_keeps}
use wshttp.Program.{Place, look, perform}
use wshttp.Program.Places.{program}
use wshttp.Program.Steps.{Running, accept, shut}
use wshttp.Program.Keeping.{moves, Fine}
use wshttp.Program.Running.{drained-Comes}
use wshttp.Program.Accepting.{accept_change, inner-Entries}
use wshttp.Program.Standing.{
  Stand, accepted-Stand, remove-Stand, perform-Stand, shutdown_cases, emptied-Stand,
}

-- What a step comes to: tables that are as they should be, or an exception that is excused.
abbrev pub Yields : (Exception → Type 0) → Result Running → Type 0
Yields excuse (ok v) = Stand v.state
Yields excuse (throw x) = excuse x

abbrev pub Runtime : Exception → Type 0
Runtime x = x ≡ runtime_error

pub callback-Yields :
    (p : Place) (t : Session) (q : Result Session) (w : Running)
    → look p w.state ≡ some (some t)
    → Comes program Fine p q
    → Stand w.state
    → Yields Runtime (callback program p q w)
unfolding callback settle
callback-Yields p t (throw x) w found comes stand = comes
callback-Yields p t (ok u) w found comes stand =
    put-Entries program Fine moves p t (taken program Fine u) w.state found comes.0 stand

-- Input or room for output, before the session is configured: a null pointer, unless output waits.
pub early_cases :
    (d : Driver) (t : Session) (q : Result Session)
    → t.http2 ≡ none
    → (q ≡ read_cb d t) ⊎ (q ≡ write_cb d t)
    → (q ≡ throw null_access) ⊎ (q ≡ ok t)
unfolding read_cb write_cb read_session_data write_session_data
early_cases d t q unset (inl reads) = inl (reads ∙ rw unset refl)
early_cases d t q unset (inr writes) = elim (Bool-cases (ltb 0 (length t.output))) [
  | inl busy ↦ inr (writes ∙ rw busy refl)
  | inr idle ↦ inl (writes ∙ rw (idle, unset) refl)
]

-- A session that is left as it was stands where it did.
same-Comes : (p : Place) (t : Session) → Entry program Fine p (some t) → Comes program Fine p (ok t)
same-Comes p t entry = drained-Comes p t t.output entry

pub early-Yields :
    (p : Place) (t : Session) (q : Result Session) (w : Running)
    → look p w.state ≡ some (some t)
    → (q ≡ throw null_access) ⊎ (q ≡ ok t)
    → Stand w.state
    → Yields (λ x. x ≡ null_access) (callback program p q w)
unfolding callback settle
early-Yields p t q w found (inl thrown) stand = rw thrown refl
early-Yields p t q w found (inr same) stand =
    let entry = (same-Comes p t (stand p (some t) found)).0 in
    rw same (put-Entries program Fine moves p t (taken program Fine t) w.state found entry stand)

pub accept-Yields :
    (port : ℕ) (l : Listener) (net : Net) (name : Sockaddr) (remote : IpAddress) (w : Running)
    → find port w.state.listeners ≡ some (some l)
    → IsInet name
    → LocalInet net
    → of_sockaddr net.big_endian name ≡ ok remote
    → Stand w.state
    → Yields Runtime (accept port net name w)
unfolding become
accept-Yields port l net name remote w found is_inet local made stand =
    let built = make_inbound-Made net remote (inet-IsCoherent net name remote is_inet made) local in
    let inner = inner-Entries port l w.state found stand in
    elim (Result-cases (create_inbound_session net remote l).1) [
      | inl (e, thrown) ↦
          rw (accept_change port l net name remote w found made, thrown)
            (created-throws net remote l e built thrown)
      | inr (_, returned) ↦
          rw (accept_change port l net name remote w found made, returned)
            (accepted-Stand port l net remote w.state found
              (created-Entries net remote l built inner returned) stand)
    ]

-- A job throws nothing but the use of what is gone.
run_job_cases :
    (job : Job Place ℕ) (e : Endpoint)
    → ((e' : Endpoint) × (run_job program job e ≡ ok e'))
      ⊎ (run_job program job e ≡ throw dangling_access)
unfolding run_job perform
run_job_cases (closes p true) e = elim (Option-cases (look p e)) [
  | inl gone ↦ inr (rw gone refl)
  | inr (none, null) ↦ inr (rw null refl)
  | inr (some t, found) ↦ inl (program.remove (program.own p t) e, rw found refl)
]
run_job_cases (closes p false) e = inr refl
run_job_cases (does port true) e = elim (Option-cases (find port e.listeners)) [
  | inl gone ↦ inr (rw gone refl)
  | inr (none, null) ↦ inr (rw null refl)
  | inr (some l, found) ↦ inl (Endpoint.close_listener (close_listener l) e, rw found refl)
]
run_job_cases (does port false) e = inr refl

run_jobs_cases :
    (jobs : List (Job Place ℕ)) (e : Endpoint)
    → ((e' : Endpoint) × (run_jobs program jobs e ≡ ok e'))
      ⊎ (run_jobs program jobs e ≡ throw dangling_access)
unfolding run_jobs
run_jobs_cases [] e = inl (e, refl)
run_jobs_cases (job ∷ jobs) e = elim (run_job_cases job e) [
  | inr thrown ↦ inr (rw (run_jobs, thrown) refl)
  | inl (e', did) ↦ rw (run_jobs, did) (run_jobs_cases jobs e')
]

pub pass-Yields :
    (w : Running)
    → Stand w.state
    → Yields (λ x. (x ≡ dangling_access) × (¬ Owed program Fine w.pending w.state)) (pass program w)
unfolding pass
pass-Yields w stand = elim (run_jobs_cases w.pending w.state) [
  | inl (e', ran) ↦
      let did : pass program w ≡ ok (record { state = e'; pending = [] }) = rw (pass, ran) refl in
      rw did (pass_keeps program Fine Stand remove-Stand perform-Stand w _ did stand)
  | inr thrown ↦
      let did : pass program w ≡ throw dangling_access = rw (pass, thrown) refl in
      rw did (
        refl,
        λ owed.
            let (v, ran, _, _, _) =
              pass_leaves program Fine w (record { entries = stand; owed = owed }) in
            absurd (ground (arith, did, ran)),
      )
]

pub shut-Yields :
    (w : Running)
    → Stand w.state
    → Yields (λ x. (x ≡ null_access) × (¬ AreLive w.state.listeners)) (shut w)
unfolding shut become
shut-Yields w stand = elim (shutdown_cases w.state) [
  | inl closed ↦ rw (shut, closed) (emptied-Stand w.state stand)
  | inr (thrown, dead) ↦ rw (shut, thrown) (refl, dead)
]
