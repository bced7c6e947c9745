-- ===== src/Server/Progress.antt =====
-- listener.cpp, session.cpp and loop.cpp: a pass of the loop over the jobs of a server, and how
-- sessions that ask to be closed leave it.
use wshttp.Prelude.{
  ◌≡◌, refl, ◌∙◌, ◌⊎◌, inl, inr, Bool, Bool-cases, Option-cases, true, false, none, some, List, [],
  ◌∷◌, All, arith, if◌then◌else◌,
}
use wshttp.Prelude.Outcome.{ok, throw, dangling_access}
use wshttp.Maps.{find}
use wshttp.Maps.Laws.{find-erase}
use wshttp.Address.Ip.{IpAddress, equal}
use wshttp.Address.Ip.Keys.{ip_key, equal_left}
use wshttp.Session.{Session}
use wshttp.Listener.{Listener, close_session}
use wshttp.Server.{Job, Server, run_job, run_jobs, pass, IsQuiet}
use wshttp.Server.Keeping.{Entries, Owed, Owed-kept, Good, GoodResult}

pub close-Entries :
    (l : Listener) (remote : IpAddress)
    → Entries l.sessions
    → Entries (close_session remote l).sessions
unfolding close_session
close-Entries l remote entries key v found =
    entries key v (ground (arith, find-erase remote key l.sessions, found))

-- The table without one entry still has those that other jobs name.
others_stay :
    (remote key : IpAddress) (l : Listener) (jobs : List Job)
    → equal remote key ≡ true
    → IsQuiet key jobs
    → All
        (λ (job : Job).
          (t : Session)
          → find job.key l.sessions ≡ some (some t)
          → (t' : Session) × (find job.key (close_session remote l).sessions ≡ some (some t')))
        jobs
unfolding close_session
others_stay remote key l [] keyed quiet = tt
others_stay remote key l (job ∷ jobs) keyed (other, others) = (
  λ t found. (
    t,
    find-erase remote job.key l.sessions ∙ rw (equal_left remote key job.key keyed, other) found,
  ),
  others_stay remote key l jobs keyed others,
)

-- A job of the session at `key` waits.
abbrev pub waits : IpAddress → List Job → Bool
waits key [] = false
waits key (job ∷ jobs) = if equal job.key key then true else waits key jobs

-- The jobs that wait can all be run; then the sessions that they name are gone, and no other is.
pub run_jobs-Entries :
    (jobs : List Job) (l : Listener)
    → Entries l.sessions
    → Owed jobs l.sessions
    → (l' : Listener) × (run_jobs jobs l ≡ ok l')
      × Entries l'.sessions
      × ((key : IpAddress)
          → find key l'.sessions ≡ (if waits key jobs then none else find key l.sessions))
unfolding run_jobs run_job close_session
run_jobs-Entries [] l entries owed = (l, refl, entries, λ key. refl)
run_jobs-Entries (job ∷ jobs) l entries (alive, (t, found), quiet, rest) =
    let (keyed, sound) = entries job.key (some t) found in
    let (l', ran, entries', left) =
      run_jobs-Entries jobs (close_session t.ends.remote l) (close-Entries l t.ends.remote entries)
        (Owed-kept jobs l.sessions (close_session t.ends.remote l).sessions
          (others_stay t.ends.remote job.key l jobs keyed quiet) rest) in
    (
      l',
      rw (run_jobs, run_job, alive, found) ran,
      entries',
      λ key. ground (
        arith,
        left key,
        find-erase t.ends.remote key l.sessions,
        equal_left t.ends.remote job.key key keyed,
      ),
    )

-- In a server as its runs keep it the next pass of the loop runs every job that waits and throws
-- nothing: no job is left, the sessions that asked to be closed are gone, and every other one is
-- still there. The server is again as its runs keep it.
pub waiting_sessions_leave :
    (s : Server)
    → Good s
    → (t : Server) × (pass s ≡ ok t)
      × (t.pending ≡ [])
      × Good t
      × ((key : IpAddress)
          → find key t.listener.sessions
            ≡ (if waits key s.pending then none else find key s.listener.sessions))
unfolding pass
waiting_sessions_leave s good =
    let (l, ran, entries, left) = run_jobs-Entries s.pending s.listener good.entries good.owed in
    (
      record { listener = l; pending = [] },
      rw (pass, ran) refl,
      refl,
      record { entries = entries; owed = tt },
      left,
    )

pub pass-Good : (s : Server) → Good s → GoodResult (pass s)
pass-Good s good = let (t, ran, _, good', _) = waiting_sessions_leave s good in rw ran good'

-- A job can be run, or its session is gone.
job_cases :
    (l : Listener) (job : Job)
    → Entries l.sessions
    → ((job.alive ≡ true) × ((t : Session) × (find job.key l.sessions ≡ some (some t))))
      ⊎ (((t : Session) → job.alive ≡ true → find job.key l.sessions ≡ some (some t) → ⊥)
          × (run_job l job ≡ throw dangling_access))
unfolding run_job
job_cases l job entries = elim (Bool-cases job.alive) [
  | inr dead ↦ inr (λ t live found. cc, rw (run_job, dead) refl)
  | inl live ↦ elim (Option-cases (find job.key l.sessions)) [
    | inl gone ↦ inr (λ t live' found. ground (arith, gone, found), rw (run_job, live, gone) refl)
    | inr (none, null) ↦ absurd (entries job.key none null)
    | inr (some t, found) ↦ inl (live, (t, found))
  ]
]

-- The jobs that stay owed when a session has been closed were owed before, and are not its own.
Owed-close :
    (l : Listener) (remote key : IpAddress) (jobs : List Job)
    → equal remote key ≡ true
    → Owed jobs (close_session remote l).sessions
    → Owed jobs l.sessions × IsQuiet key jobs
unfolding close_session
Owed-close l remote key [] keyed owed = (tt, tt)
Owed-close l remote key (job ∷ jobs) keyed (alive, (t, found), quiet, rest) =
    let (owed, others) = Owed-close l remote key jobs keyed rest in
    let looked = find-erase remote job.key l.sessions in
    let same = equal_left remote key job.key keyed in
    (
      (alive, (t, ground (arith, looked, found)), quiet, owed),
      (ground (arith, looked, same, found), others),
    )

-- The jobs can be run exactly if each names a session of the table and no two the same.
run_jobs-Owed :
    (jobs : List Job) (l : Listener)
    → Entries l.sessions
    → (Owed jobs l.sessions × ((l' : Listener) × (run_jobs jobs l ≡ ok l')))
      ⊎ ((¬ Owed jobs l.sessions) × (run_jobs jobs l ≡ throw dangling_access))
unfolding run_jobs run_job close_session
run_jobs-Owed [] l entries = inl (tt, (l, refl))
run_jobs-Owed (job ∷ jobs) l entries = elim (job_cases l job entries) [
  | inr (gone, thrown) ↦
      inr (λ (alive, (t, found), quiet, rest). gone t alive found, rw (run_jobs, thrown) refl)
  | inl (alive, (t, found)) ↦
      let (keyed, sound) = entries job.key (some t) found in
      elim (run_jobs-Owed jobs (close_session t.ends.remote l)
        (close-Entries l t.ends.remote entries)) [
          | inl (owed, (l', ran)) ↦
              let (before, quiet) = Owed-close l t.ends.remote job.key jobs keyed owed in
              inl
                ((alive, (t, found), quiet, before), (l', rw (run_jobs, run_job, alive, found) ran))
          | inr (unowed, thrown) ↦ inr (
            λ (_, _, quiet, rest). unowed (
                Owed-kept jobs l.sessions (close_session t.ends.remote l).sessions
                  (others_stay t.ends.remote job.key l jobs keyed quiet) rest),
            rw (run_jobs, run_job, alive, found) thrown,
          )
        ]
]

-- In a server with no null pointer among its sessions, each under its own address, the pass of the
-- loop runs all the jobs that wait if each of them names a session that is there and no two the same.
-- Else it uses a session that is gone.
pub pass-Owed :
    (s : Server)
    → Entries s.listener.sessions
    → (Owed s.pending s.listener.sessions × ((t : Server) × (pass s ≡ ok t)))
      ⊎ ((¬ Owed s.pending s.listener.sessions) × (pass s ≡ throw dangling_access))
unfolding pass
pass-Owed s entries = elim (run_jobs-Owed s.pending s.listener entries) [
  | inl (owed, (l, ran)) ↦ inl (owed, (record { listener = l; pending = [] }, rw (pass, ran) refl))
  | inr (unowed, thrown) ↦ inr (unowed, rw (pass, thrown) refl)
]
